-- ===== src/Access/Switches.antt =====
-- Kill switches stop execution: `_active_kill_reason` of apps/api/agentguard_api/authorization.py
-- and `_check_execution_allowed` of apps/api/agentguard_api/runtime_routes.py.
use aiagentguard.Access.{
  denied_by, credential_blocked, KillSwitch, Agent, Tool, Credential, Access, covers, switches_of,
  first_reason, active_kill_reason, is_truthy, rows_block, execution_blocked,
}
use aiagentguard.Prelude.{
  ℕ, ◌≡◌, refl, sym, Bool, true, false, not, ◌&&◌, ◌||◌, Option, none, some, List, [], ◌∷◌, select,
  str_eq, arith, Bool-cases, inl, inr, any, ◌∙◌,
}

-- Reasons are never empty, which KillSwitchInput of apps/api/agentguard_api/schemas.py asks for.
abbrev pub AreStated : List KillSwitch → Type 0
AreStated [] = Unit
AreStated (k ∷ ks) = (str_eq k.reason "" ≡ false) × AreStated ks

-- An active switch of the agent's organization that covers the agent or the tool.
abbrev pub applies_to : Agent → Option Tool → KillSwitch → Bool
applies_to agent tool k =
    (str_eq k.organization_id agent.organization_id && k.active) && covers agent tool k

reasons_of :
    (agent : Agent) (tool : Option Tool) (ks : List KillSwitch)
    → AreStated ks
    → is_truthy (first_reason agent tool ks) ≡ any (covers agent tool) ks
unfolding first_reason
reasons_of agent tool [] h = refl
reasons_of agent tool (k ∷ ks) h = ground (arith, reasons_of agent tool ks h.1)

select-AreStated :
    (test : KillSwitch → Bool) (ks : List KillSwitch) → AreStated ks → AreStated (select test ks)
select-AreStated test [] h = h
select-AreStated test (k ∷ ks) h = elim (Bool-cases (test k)) [
  | inl kept ↦ rw (AreStated, kept) (h.0, select-AreStated test ks h.1)
  | inr dropped ↦ rw (AreStated, dropped) (select-AreStated test ks h.1)
]

any-select :
    (asked test : KillSwitch → Bool) (ks : List KillSwitch)
    → any test (select asked ks) ≡ any (λ k. asked k && test k) ks
any-select asked test [] = refl
any-select asked test (k ∷ ks) = ground (arith, any-select asked test ks)

kill_reason_of :
    (agent : Agent) (tool : Option Tool) (ks : List KillSwitch)
    → AreStated ks
    → is_truthy (active_kill_reason ks agent tool) ≡ any (applies_to agent tool) ks
unfolding active_kill_reason
kill_reason_of agent tool ks h =
    let asked = λ (k : KillSwitch). str_eq k.organization_id agent.organization_id && k.active in
    reasons_of agent tool (switches_of agent ks) (select-AreStated asked ks h)
    ∙ any-select asked (covers agent tool) ks

blocked_parts :
    (a b c d e : Bool)
    → a || (b || (c || (d || e))) ≡ false
    → (a ≡ false) × (b ≡ false) × (c ≡ false) × (d ≡ false) × (e ≡ false)
blocked_parts a b c d e h = ground arith

rows_allow :
    (now : ℕ) (organization : Option Bool) (agent : Option Agent) (credential : Option Credential)
    (permission : Option Bool) (ks : List KillSwitch) (tool : Tool)
    → AreStated ks
    → rows_block now organization agent credential permission ks tool ≡ false
    → (organization ≡ some true)
      × ((a : Agent) × (c : Credential) × (agent ≡ some a)
          × (credential ≡ some c)
          × (str_eq a.status "active" ≡ true)
          × (tool.disabled ≡ false)
          × (credential_blocked now a c tool ≡ false)
          × (denied_by permission ≡ false)
          × (any (applies_to a (some tool)) ks ≡ false))
unfolding rows_block
rows_allow now (some true) (some a) (some c) permission ks tool stated h =
    let (active, enabled, credential_fits, permitted, quiet) =
      blocked_parts (not (str_eq a.status "active")) tool.disabled (credential_blocked now a c tool)
        (denied_by permission) (is_truthy (active_kill_reason ks a (some tool))) h in
    (
      refl,
      (
        a,
        c,
        refl,
        refl,
        ground arith,
        enabled,
        credential_fits,
        permitted,
        sym (kill_reason_of a (some tool) ks stated) ∙ quiet,
      ),
    )
rows_allow now none agent credential permission ks tool stated h = absurd (cc)
rows_allow now (some false) agent credential permission ks tool stated h = absurd (cc)
rows_allow now (some true) none credential permission ks tool stated h = absurd (cc)
rows_allow now (some true) (some a) none permission ks tool stated h = absurd (cc)

-- Where every switch has a reason, execution is not blocked only if the organization is active, the
-- agent and its credential are there, the agent is active, the tool is enabled, the credential fits
-- (it is not revoked, has not expired, and environments and scopes agree), no permission denies the
-- tool, and no active switch of the organization covers the agent or the tool.
pub execution_allowed :
    (now : ℕ) (access : Access) (tool : Tool)
    → AreStated access.switches
    → execution_blocked now access tool ≡ false
    → (access.organization_active ≡ some true)
      × ((a : Agent) × (c : Credential) × (access.agent ≡ some a)
          × (access.credential ≡ some c)
          × (str_eq a.status "active" ≡ true)
          × (tool.disabled ≡ false)
          × (credential_blocked now a c tool ≡ false)
          × (denied_by access.permission_allowed ≡ false)
          × (any (applies_to a (some tool)) access.switches ≡ false))
unfolding execution_blocked
execution_allowed now access tool stated h =
    rows_allow now access.organization_active access.agent access.credential
      access.permission_allowed access.switches tool stated h
