-- ===== src/Keys/Authentication.antt =====
-- Who is let in by a machine key: `authenticate_agent` of
-- apps/api/agentguard_api/authorization.py.
use aiagentguard.Access.{Agent, Credential, is_expired, is_none}
use aiagentguard.Keys.{
  Directory, accepted, parse_machine_key, claims, authenticate_credential, authenticate_agent,
}
use aiagentguard.Prelude.{
  ℕ, String, ◌≡◌, true, false, Option, some, str_eq, Option-cases, inl, inr, arith,
}

module _ (digest : String → String) where
  -- What a key has shown when it is accepted.
  pub record Shown (now : ℕ) (directory : Directory) (raw : String) (claimed : Option String)
      (c : Credential) (a : Agent) : Type 0 where
    pub organization_id : String
    pub credential_id : String
    pub environment : String
    pub read : parse_machine_key raw ≡ some (organization_id, credential_id, environment)
    pub stored : directory.find_credential credential_id ≡ some c
    pub own : str_eq c.organization_id organization_id ≡ true
    pub digest_fits : str_eq (digest raw) c.key_hash ≡ true
    pub kept : is_none c.revoked_at ≡ true
    pub in_time : is_expired now c.expires_at ≡ false
    pub environment_fits : str_eq c.environment environment ≡ true
    pub agent_stored : directory.find_agent c.agent_id ≡ some a
    pub agent_own : str_eq a.organization_id organization_id ≡ true
    pub agent_claimed : claims digest claimed a.id ≡ true
    pub active : directory.organization_active organization_id ≡ some true

  -- A key is accepted only for the credential that it names and whose digest is its own, which is
  -- neither revoked nor expired and has the key's environment, for that credential's agent, in the
  -- organization that the key names, while that is active, and for the agent that is claimed.
  pub accepted-Shown :
      (now : ℕ) (directory : Directory) (raw : String) (claimed : Option String) (c : Credential)
      (a : Agent)
      → authenticate_agent digest now directory raw claimed ≡ accepted c a
      → Shown now directory raw claimed c a
  unfolding authenticate_agent authenticate_credential
  accepted-Shown now directory raw claimed c a h = elim (Option-cases (parse_machine_key raw)) [
    | inl unread ↦ absurd (ground arith)
    | inr ((organization_id, credential_id, environment), read) ↦
        elim (Option-cases (directory.find_credential credential_id)) [
          | inl missing ↦ absurd (ground arith)
          | inr (found, stored) ↦ elim (Option-cases (directory.find_agent found.agent_id)) [
            | inl missing ↦ absurd (ground arith)
            | inr (agent, there) ↦ record {
              organization_id = organization_id;
              credential_id = credential_id;
              environment = environment;
              read = read;
              stored = ground arith;
              own = ground arith;
              digest_fits = ground arith;
              kept = ground arith;
              in_time = ground arith;
              environment_fits = ground arith;
              agent_stored = ground arith;
              agent_own = ground arith;
              agent_claimed = ground arith;
              active = ground arith;
            }
          ]
        ]
  ]
