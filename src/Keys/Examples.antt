-- ===== src/Keys/Examples.antt =====
-- A key of the organization o1, and the theorems on keys at it. Digests are the keys themselves.
use aiagentguard.Access.{Agent, Credential, is_expired}
use aiagentguard.Keys.{
  Directory, cut, split, parse_machine_key, parse_admin_key, make_machine_key, make_admin_key,
  authenticate_credential, authenticate_agent,
}
use aiagentguard.Keys.RoundTrip.{keys_read_back}
use aiagentguard.Keys.Authentication.{Shown, accepted-Shown}
use aiagentguard.Prelude.{String, ◌≡◌, refl, true, none, some, [], str_eq, if◌then◌else◌}

abbrev plain : String → String
plain text = text

abbrev key : String
key = "agk_production_o1_c1_s_ecret"

abbrev credential : Credential
credential = record {
  id = "c1";
  organization_id = "o1";
  agent_id = "a1";
  key_hash = key;
  environment = "production";
  scopes = [];
  expires_at = some 100;
  revoked_at = none;
}

abbrev agent : Agent
agent = record {
  id = "a1";
  organization_id = "o1";
  workspace_id = "w1";
  team_id = none;
  environment = "production";
  status = "active";
}

abbrev directory : Directory
directory = record {
  find_credential = λ id. if str_eq id "c1" then some credential else none;
  find_agent = λ id. if str_eq id "a1" then some agent else none;
  organization_active = λ id. if str_eq id "o1" then some true else none;
}

keys_read_back_example :
    (parse_machine_key (make_machine_key plain "production" "o1" "c1" "s_ecret").0
      ≡ some ("o1", "c1", "production"))
    × (parse_admin_key (make_admin_key plain "production" "o1" "c1" "s_ecret").0
        ≡ some ("o1", "c1"))
    × (parse_admin_key (make_machine_key plain "production" "o1" "c1" "s_ecret").0 ≡ none)
    × (parse_machine_key (make_admin_key plain "production" "o1" "c1" "s_ecret").0 ≡ none)
unfolding cut
keys_read_back_example = keys_read_back plain "production" "o1" "c1" "s_ecret" refl refl refl

accepted-Shown_example : Shown plain 10 directory key (some "a1") credential agent
unfolding authenticate_agent authenticate_credential parse_machine_key split cut is_expired
accepted-Shown_example = accepted-Shown plain 10 directory key (some "a1") credential agent refl
