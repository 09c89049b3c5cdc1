-- ===== src/Keys.antt =====
-- Machine and admin keys: `make_machine_key`, `parse_machine_key`, `make_admin_key` and
-- `parse_admin_key` of apps/api/agentguard_api/security.py, and `authenticate_agent` of
-- apps/api/agentguard_api/authorization.py. `digest` is `digest_secret` with the deployment's pepper;
-- the secret of a new key is `random_token(32)`, an argument here.
pub mod RoundTrip
pub mod Authentication
mod Examples
use Prim.Native.Char.{code}
use Prim.Native.String.{◌∷◌ as str_cons, ◌++◌ as str_append}
use mathlib.Core.Option
use aiagentguard.Access.{Agent, Credential, is_expired, is_none}
use aiagentguard.Prelude.{
  ℕ, zero, suc, String, Bool, true, false, not, ◌&&◌, ◌||◌, Option, none, some, List, [], ◌∷◌, ◌==◌,
  if◌then◌else◌, str_eq, str_in,
}

abbrev underscore : ℕ
underscore = 95

-- The parts before and after the first `_`.
unfoldable pub cut : String → Option (String × String)
cut String.[] = none
cut (String.◌∷◌ c s) =
    let later = Option.map (λ (parts : String × String). (str_cons c parts.0, parts.1)) (cut s) in
    if code c == underscore then some ("", s) else later

-- `raw.split("_", n)`.
unfoldable pub split : ℕ → String → List String
split zero s = s ∷ []
split (suc n) s = elim (cut s) [ none ↦ s ∷ [] | some (head, rest) ↦ head ∷ split n rest ]

-- A text and `_` before another.
abbrev pub and_then : String → String → String
and_then s rest = str_append s (str_append "_" rest)

abbrev pub key_text : String → String → String → String → String → String
key_text kind environment organization_id id secret =
    and_then kind (and_then environment (and_then organization_id (and_then id secret)))

abbrev pub machine_parts : List String → Option (String × String × String)
machine_parts (kind ∷ environment ∷ organization_id ∷ credential_id ∷ secret ∷ []) =
    if str_eq kind "agk" && str_in environment ("development" ∷ "staging" ∷ "production" ∷ [])
    then some (organization_id, credential_id, environment)
    else none
machine_parts _ = none

unfoldable pub parse_machine_key : String → Option (String × String × String)
parse_machine_key raw = machine_parts (split 4 raw)

abbrev pub admin_parts : List String → Option (String × String)
admin_parts (kind ∷ environment ∷ organization_id ∷ key_id ∷ secret ∷ []) =
    if str_eq kind "agu" then some (organization_id, key_id) else none
admin_parts _ = none

unfoldable pub parse_admin_key : String → Option (String × String)
parse_admin_key raw = admin_parts (split 4 raw)

-- What the queries of `authenticate_agent` find by id; `active` is that of the organization.
pub record Directory : Type 0 where
  pub find_credential : String → Option Credential
  pub find_agent : String → Option Agent
  pub organization_active : String → Option Bool

pub data Refusal : Type 0 where
  invalid_credential inactive_organization : Refusal

pub data Authenticated : Type 0 where
  refused : Refusal → Authenticated
  accepted : Credential → Agent → Authenticated

module _ (digest : String → String) where
  -- The key, its digest and its prefix are returned; the prefix is for display.
  abbrev pub make_machine_key : String → String → String → String → String × String
  make_machine_key environment organization_id credential_id secret =
      let raw = key_text "agk" environment organization_id credential_id secret in (raw, digest raw)

  abbrev pub make_admin_key : String → String → String → String → String × String
  make_admin_key environment organization_id key_id secret =
      let raw = key_text "agu" environment organization_id key_id secret in (raw, digest raw)

  abbrev credential_fits : ℕ → String → String → String → Credential → Bool
  credential_fits now raw organization_id environment c =
      str_eq c.organization_id organization_id
      && (is_none c.revoked_at
          && (not (is_expired now c.expires_at)
              && (str_eq c.environment environment && str_eq (digest raw) c.key_hash)))

  abbrev claims : Option String → String → Bool
  claims none id = true
  claims (some claimed) id = str_eq claimed "" || str_eq claimed id

  -- From the query of the agent on.
  unfoldable pub authenticate_credential :
      Directory → String → Option String → Credential → Authenticated
  authenticate_credential directory organization_id claimed c =
      elim (directory.find_agent c.agent_id) [
        | none ↦ refused invalid_credential
        | some agent ↦
            if not (str_eq agent.organization_id organization_id && claims claimed agent.id)
            then refused invalid_credential
            else elim (directory.organization_active organization_id) [
              | some true ↦ accepted c agent
              | _ ↦ refused inactive_organization
            ]
      ]

  unfoldable pub authenticate_agent : ℕ → Directory → String → Option String → Authenticated
  authenticate_agent now directory raw claimed = elim (parse_machine_key raw) [
    | none ↦ refused invalid_credential
    | some (organization_id, credential_id, environment) ↦
        elim (directory.find_credential credential_id) [
          | none ↦ refused invalid_credential
          | some c ↦
              if credential_fits now raw organization_id environment c
              then authenticate_credential directory organization_id claimed c
              else refused invalid_credential
        ]
  ]
