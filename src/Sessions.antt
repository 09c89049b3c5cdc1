-- ===== src/Sessions.antt =====
-- Sign-in: apps/api/agentguard_api/auth_routes.py and apps/api/agentguard_api/dependencies.py on the
-- tables User, OrganizationMember, UserSession, MagicLink and ApiKey. `digest` is `digest_secret`, and
-- `verify` is `verify_password`; an email is in lower case, and the tokens of a call are fresh.
-- Cookies of a response and the body that `_me` builds are left out, and so is the check of a password
-- against a dummy hash for an email that nobody has, whose result counts for nothing.
pub mod Lockout
pub mod Guessing
pub mod Rotation
pub mod Principals
mod Examples
use aiagentguard.Access.{is_expired, is_none}
use aiagentguard.Keys.{parse_admin_key}
use aiagentguard.Prelude.{
  ℕ, ◌+◌, String, Bool, true, false, not, ◌&&◌, ◌||◌, Option, none, some, List, [], ◌∷◌, any, first,
  map, leb, if◌then◌else◌, str_eq, str_in,
}

pub record User : Type 0 where
  pub id : String
  pub email : String
  pub password_hash : Option String
  pub active : Bool
  pub failed_login_count : ℕ
  pub locked_until : Option ℕ

pub record Organization : Type 0 where
  pub id : String
  pub active : Bool

pub record Member : Type 0 where
  pub organization_id : String
  pub user_id : String
  pub role : String
  pub active : Bool

pub record UserSession : Type 0 where
  pub id : String
  pub user_id : String
  pub organization_id : String
  pub access_hash : String
  pub refresh_hash : String
  pub csrf_hash : String
  pub access_expires_at : ℕ
  pub refresh_expires_at : ℕ
  pub revoked_at : Option ℕ

pub record MagicLink : Type 0 where
  pub id : String
  pub user_id : String
  pub token_hash : String
  pub expires_at : ℕ
  pub consumed_at : Option ℕ

pub record ApiKey : Type 0 where
  pub id : String
  pub organization_id : String
  pub key_hash : String
  pub scopes : List String
  pub expires_at : Option ℕ
  pub revoked_at : Option ℕ

pub record Store : Type 0 where
  pub users : List User
  pub organizations : List Organization
  pub members : List Member
  pub sessions : List UserSession
  pub links : List MagicLink
  pub keys : List ApiKey

-- The settings that sessions read.
pub record Lifetimes : Type 0 where
  pub access_token_ttl_seconds : ℕ
  pub refresh_token_ttl_seconds : ℕ

pub record Tokens : Type 0 where
  pub session_id : String
  pub access : String
  pub refresh : String
  pub csrf : String

-- `user_id` is `none` for an API key.
pub record Principal : Type 0 where
  pub user_id : Option String
  pub organization_id : String
  pub role : String
  pub via_cookie : Bool
  pub scopes : List String

pub data Answer : Type 0 where
  refused : (code : ℕ) → Answer
  signed_in : Principal → Answer
  accepted : Answer

abbrev pub user_by_id : String → Store → Option User
user_by_id id s = first (λ (u : User). str_eq u.id id) s.users

abbrev pub user_by_email : String → Store → Option User
user_by_email email s = first (λ (u : User). str_eq u.email email) s.users

abbrev pub member_of_user : String → Store → Option Member
member_of_user user s = first (λ (m : Member). str_eq m.user_id user && m.active) s.members

abbrev pub member_in : String → String → Store → Option Member
member_in organization user s =
    first
      (λ (m : Member). str_eq m.organization_id organization && (str_eq m.user_id user && m.active))
      s.members

abbrev user_active : Option User → Bool
user_active none = false
user_active (some u) = u.active

abbrev pub organization_active : String → Store → Bool
organization_active id s = elim (first (λ (o : Organization). str_eq o.id id) s.organizations) [
  | none ↦ false
  | some o ↦ o.active
]

-- The user, the organization and the membership are there and active.
unfoldable pub is_in_good_standing : String → String → Store → Bool
is_in_good_standing user organization s =
    user_active (user_by_id user s)
    && (organization_active organization s && not (is_none (member_in organization user s)))

abbrev pub update_user : String → (User → User) → Store → Store
update_user id f s = record s {
  users = map (λ (u : User). if str_eq u.id id then f u else u) s.users;
}

abbrev pub update_session : String → (UserSession → UserSession) → Store → Store
update_session id f s = record s {
  sessions = map (λ (x : UserSession). if str_eq x.id id then f x else x) s.sessions;
}

abbrev pub principal_of : String → Member → Bool → Principal
principal_of user m via_cookie = record {
  user_id = some user;
  organization_id = m.organization_id;
  role = m.role;
  via_cookie = via_cookie;
  scopes = [];
}

abbrev pub is_locked : ℕ → User → Bool
is_locked now u = not (is_none u.locked_until) && not (is_expired now u.locked_until)

-- What a wrong password writes.
unfoldable pub count_failure : ℕ → User → User
count_failure now u =
    if leb 5 (u.failed_login_count + 1)
    then record u { failed_login_count = 0; locked_until = some (now + 900) }
    else record u { failed_login_count = u.failed_login_count + 1 }

abbrev pub consume : ℕ → MagicLink → MagicLink
consume now link = record link { consumed_at = some now }

module _ (digest : String → String) where
  abbrev pub session_by_refresh : String → Store → Option UserSession
  session_by_refresh raw s =
      if str_eq raw ""
      then none
      else first (λ (x : UserSession). str_eq x.refresh_hash (digest raw)) s.sessions

  abbrev pub session_by_access : String → Store → Option UserSession
  session_by_access raw s =
      first (λ (x : UserSession). str_eq x.access_hash (digest raw)) s.sessions

  -- `raw` is the access token of the cookie or the header.
  unfoldable pub logout : ℕ → String → Store → Store
  logout now raw s = if str_eq raw "" then s else elim (session_by_access raw s) [
    | none ↦ s
    | some x ↦ update_session x.id (λ (y : UserSession). record y { revoked_at = some now }) s
  ]

  -- A link for a user who is there; its delivery is left out.
  unfoldable pub request_magic_link : ℕ → String → String → String → Store → Store
  request_magic_link now email link_id token s = elim (user_by_email email s) [
    | none ↦ s
    | some u ↦ record s {
      links =
          record {
            id = link_id;
            user_id = u.id;
            token_hash = digest token;
            expires_at = now + 900;
            consumed_at = none;
          }
          ∷ s.links;
    }
  ]

  abbrev pub link_by_token : String → Store → Option MagicLink
  link_by_token token s = first (λ (l : MagicLink). str_eq l.token_hash (digest token)) s.links

module _ (digest : String → String) (lifetimes : Lifetimes) where
  abbrev session_of : ℕ → String → String → Tokens → UserSession
  session_of now user organization tokens = record {
    id = tokens.session_id;
    user_id = user;
    organization_id = organization;
    access_hash = digest tokens.access;
    refresh_hash = digest tokens.refresh;
    csrf_hash = digest tokens.csrf;
    access_expires_at = now + lifetimes.access_token_ttl_seconds;
    refresh_expires_at = now + lifetimes.refresh_token_ttl_seconds;
    revoked_at = none;
  }

  -- `_issue_session`; `none` is the answer 403.
  unfoldable pub issue_session : ℕ → String → String → Tokens → Store → Option Store
  issue_session now user organization tokens s =
      if is_in_good_standing user organization s
      then some (record s { sessions = session_of now user organization tokens ∷ s.sessions })
      else none

  -- From the session on; the writes of a call that is refused are not committed.
  abbrev pub signed : ℕ → Member → String → Tokens → Store → Store → Answer × Store
  signed now m user tokens s changed =
      elim (issue_session now user m.organization_id tokens changed) [
        | none ↦ (refused 403, s)
        | some s' ↦ (signed_in (principal_of user m true), s')
      ]

  module _ (verify : String → Option String → Bool) where
    abbrev pub is_valid : ℕ → String → User → Bool
    is_valid now password u = verify password u.password_hash && not (is_locked now u)

    unfoldable pub login : ℕ → String → String → Tokens → Store → Answer × Store
    login now email password tokens s = elim (user_by_email email s) [
      | none ↦ (refused 401, s)
      | some u ↦
          if not (is_valid now password u)
          then (refused 401, update_user u.id (count_failure now) s)
          else elim (member_of_user u.id s) [
            | none ↦ (refused 403, s)
            | some m ↦ signed now m u.id tokens s (
                update_user u.id
                  (λ (v : User). record v { failed_login_count = 0; locked_until = none }) s)
          ]
    ]

  -- The new user with its organization, whose ids are fresh.
  unfoldable pub register : ℕ → User → Organization → Tokens → Store → Answer × Store
  register now user organization tokens s =
      if not (is_none (user_by_email user.email s))
      then (refused 409, s)
      else let m : Member = record {
        organization_id = organization.id;
        user_id = user.id;
        role = "owner";
        active = true;
      } in
        signed now m user.id tokens s (record s {
          users = user ∷ s.users;
          organizations = organization ∷ s.organizations;
          members = m ∷ s.members;
        })

  abbrev pub renewed : ℕ → Tokens → UserSession → UserSession
  renewed now tokens x = record x {
    access_hash = digest tokens.access;
    refresh_hash = digest tokens.refresh;
    csrf_hash = digest tokens.csrf;
    access_expires_at = now + lifetimes.access_token_ttl_seconds;
    refresh_expires_at = now + lifetimes.refresh_token_ttl_seconds;
  }

  unfoldable pub refresh : ℕ → String → Tokens → Store → Answer × Store
  refresh now raw tokens s = elim (session_by_refresh digest raw s) [
    | none ↦ (refused 401, s)
    | some x ↦
        if not (is_none x.revoked_at) || leb x.refresh_expires_at now
        then (refused 401, s)
        else if not (is_in_good_standing x.user_id x.organization_id s)
        then (refused 403, s)
        else elim (member_in x.organization_id x.user_id s) [
          | none ↦ (refused 403, s)
          | some m ↦ (
            signed_in (principal_of x.user_id m true),
            update_session x.id (renewed now tokens) s,
          )
        ]
  ]

  unfoldable pub consume_magic_link : ℕ → String → Tokens → Store → Answer × Store
  consume_magic_link now token tokens s = elim (link_by_token digest token s) [
    | none ↦ (refused 401, s)
    | some link ↦
        if not (is_none link.consumed_at) || leb link.expires_at now
        then (refused 401, s)
        else elim (member_of_user link.user_id s) [
          | none ↦ (refused 403, s)
          | some m ↦ signed now m link.user_id tokens s (record s {
            links =
                map (λ (l : MagicLink). if str_eq l.id link.id then consume now l else l) s.links;
          })
        ]
  ]
