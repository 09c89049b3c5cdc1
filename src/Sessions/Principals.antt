-- ===== src/Sessions/Principals.antt =====
-- `current_principal` and `require_roles` of apps/api/agentguard_api/dependencies.py. What the header
-- `authorization` holds is cut up before: `admin_key` is what follows `bearer ` before `agu_`, with
-- it, and `bearer` what follows it otherwise. The write of `last_used_at` is left out.
use aiagentguard.Access.{is_expired, is_none}
use aiagentguard.Keys.{parse_admin_key}
use aiagentguard.Sessions.{
  ApiKey, UserSession, Member, Store, Principal, Answer, refused, signed_in, session_by_access,
  is_in_good_standing, member_in, principal_of, organization_active,
}
use aiagentguard.Prelude.{
  ℕ, String, Bool, true, false, not, ◌&&◌, ◌||◌, Option, none, some, List, ◌≡◌, ◌⊎◌, inl, inr,
  Option-cases, first, leb, if◌then◌else◌, str_eq, str_in, arith,
}

pub record Presented : Type 0 where
  pub admin_key : Option String
  pub cookie : String
  pub bearer : String
  pub csrf : String
  pub reads : Bool

module _ (digest digest_key : String → String) where
  abbrev key_fits : ℕ → String → ApiKey → Bool
  key_fits now raw k =
      is_none k.revoked_at
      && (not (is_expired now k.expires_at) && str_eq (digest_key raw) k.key_hash)

  abbrev has_scope : Bool → List String → Bool
  has_scope reads scopes =
      str_in (if reads then "read" else "write") scopes || str_in "admin" scopes

  abbrev key_by_id : String → String → Store → Option ApiKey
  key_by_id organization id s =
      first (λ (k : ApiKey). str_eq k.id id && str_eq k.organization_id organization) s.keys

  unfoldable pub principal_of_key : ℕ → String → Bool → Store → Answer
  principal_of_key now raw reads s = elim (parse_admin_key raw) [
    | none ↦ refused 401
    | some (organization, key_id) ↦ elim (key_by_id organization key_id s) [
      | none ↦ refused 401
      | some k ↦
          if not (key_fits now raw k) || not (organization_active organization s)
          then refused 401
          else if not (has_scope reads k.scopes)
          then refused 403
          else signed_in (record {
            user_id = none;
            organization_id = organization;
            role = "api_key";
            via_cookie = false;
            scopes = k.scopes;
          })
    ]
  ]

  -- The token of the cookie comes first.
  abbrev pub token_of : Presented → String
  token_of p = if str_eq p.cookie "" then p.bearer else p.cookie

  abbrev pub is_live : ℕ → UserSession → Bool
  is_live now x = is_none x.revoked_at && not (leb x.access_expires_at now)

  -- A write by cookie needs the token that goes with the session.
  abbrev pub is_own_request : Presented → UserSession → Bool
  is_own_request p x =
      p.reads
      || (str_eq p.cookie "" || (not (str_eq p.csrf "") && str_eq (digest p.csrf) x.csrf_hash))

  unfoldable pub principal_of_session : ℕ → Presented → Store → Answer
  principal_of_session now p s =
      if str_eq (token_of p) ""
      then refused 401
      else elim (session_by_access digest (token_of p) s) [
        | none ↦ refused 401
        | some x ↦
            if not (is_live now x) || not (is_in_good_standing x.user_id x.organization_id s)
            then refused 401
            else elim (member_in x.organization_id x.user_id s) [
              | none ↦ refused 401
              | some m ↦
                  if not (is_own_request p x)
                  then refused 403
                  else signed_in (principal_of x.user_id m (not (str_eq p.cookie "")))
            ]
      ]

  unfoldable pub current_principal : ℕ → Presented → Store → Answer
  current_principal now p s = elim p.admin_key [
    | some raw ↦ principal_of_key now raw p.reads s
    | none ↦ principal_of_session now p s
  ]

  -- `require_roles(*roles)`, on what `current_principal` answers.
  unfoldable pub require_roles : List String → Answer → Answer
  require_roles roles (signed_in p) =
      if not (str_eq p.role "api_key") && not (str_in p.role roles)
      then refused 403
      else signed_in p
  require_roles roles answer = answer

  -- What a principal rests on: an API key, or a session.
  abbrev pub IsVouchedFor : ℕ → Presented → Store → Principal → Type 0
  IsVouchedFor now p s who =
      ((raw : String) × (organization : String) × (id : String) × (k : ApiKey) × (p.admin_key
          ≡ some raw)
        × (parse_admin_key raw ≡ some (organization, id))
        × (key_by_id organization id s ≡ some k)
        × (key_fits now raw k ≡ true)
        × (has_scope p.reads k.scopes ≡ true)
        × (organization_active organization s ≡ true)
        × (who.organization_id ≡ organization))
      ⊎ ((x : UserSession) × (m : Member) × (session_by_access digest (token_of p) s ≡ some x)
          × (is_live now x ≡ true)
          × (is_in_good_standing x.user_id x.organization_id s ≡ true)
          × (is_own_request p x ≡ true)
          × (member_in x.organization_id x.user_id s ≡ some m)
          × (who.role ≡ m.role))

  -- Nobody is let in without a key or a session that is there, live, of an active user or organization,
  -- allowed to do what the request does, and shown by its own token.
  pub current_principal_shown :
      (now : ℕ) (p : Presented) (s : Store) (who : Principal)
      → current_principal now p s ≡ signed_in who
      → IsVouchedFor now p s who
  unfolding current_principal principal_of_key principal_of_session
  current_principal_shown now p s who h = elim (Option-cases p.admin_key) [
    | inr (raw, e) ↦ elim (Option-cases (parse_admin_key raw)) [
      | inl e' ↦ absurd (ground arith)
      | inr ((organization, id), e') ↦ elim (Option-cases (key_by_id organization id s)) [
        | inl e'' ↦ absurd (ground arith)
        | inr (k, e'') ↦ inl (
          raw,
          organization,
          id,
          k,
          e,
          e',
          e'',
          ground arith,
          ground arith,
          ground arith,
          ground arith,
        )
      ]
    ]
    | inl e ↦ elim (Option-cases (session_by_access digest (token_of p) s)) [
      | inl e' ↦ absurd (ground arith)
      | inr (x, e') ↦ elim (Option-cases (member_in x.organization_id x.user_id s)) [
        | inl e'' ↦ absurd (ground arith)
        | inr (m, e'') ↦ inr (x, m, e', ground arith, ground arith, ground arith, e'', ground arith)
      ]
    ]
  ]
