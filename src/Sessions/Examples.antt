-- ===== src/Sessions/Examples.antt =====
-- One user with a session and a link. A digest is the text itself after a mark.
use Prim.Native.String.{◌++◌ as str_append}
use aiagentguard.Sessions.{
  User, Member, UserSession, MagicLink, Store, Lifetimes, Tokens, refused, signed_in, principal_of,
  is_in_good_standing, issue_session, count_failure, login, refresh, consume_magic_link,
}
use aiagentguard.Sessions.Lockout.{is_counted, login-counted}
use aiagentguard.Sessions.Guessing.{Guess}
use aiagentguard.Sessions.Rotation.{is_signed_in, refresh_once, consume_once}
use aiagentguard.Sessions.Principals.{
  Presented, principal_of_session, current_principal, IsVouchedFor, current_principal_shown,
}
use aiagentguard.Prelude.{
  String, ◌≡◌, refl, Bool, true, false, Option, none, some, [], ◌∷◌, all, first, str_eq,
}

abbrev digest : String → String
digest = str_append "#"

abbrev lifetimes : Lifetimes
lifetimes = record { access_token_ttl_seconds = 900; refresh_token_ttl_seconds = 86400 }

abbrev verify : String → Option String → Bool
verify password none = false
verify password (some hash) = str_eq (digest password) hash

abbrev mia : User
mia = record {
  id = "u1";
  email = "mia@example.org";
  password_hash = some "#secret";
  active = true;
  failed_login_count = 4;
  locked_until = none;
}

abbrev locked : User
locked = record mia { failed_login_count = 0; locked_until = some 1900 }

abbrev session : UserSession
session = record {
  id = "s1";
  user_id = "u1";
  organization_id = "o1";
  access_hash = "#a1";
  refresh_hash = "#r1";
  csrf_hash = "#x1";
  access_expires_at = 1900;
  refresh_expires_at = 90000;
  revoked_at = none;
}

abbrev link : MagicLink
link = record {
  id = "l1";
  user_id = "u1";
  token_hash = "#m1";
  expires_at = 1900;
  consumed_at = none;
}

abbrev member : Member
member = record { organization_id = "o1"; user_id = "u1"; role = "admin"; active = true }

abbrev store_of : User → Store
store_of user = record {
  users = user ∷ [];
  organizations = record { id = "o1"; active = true } ∷ [];
  members = member ∷ [];
  sessions = session ∷ [];
  links = link ∷ [];
  keys = [];
}

abbrev fresh : Tokens
fresh = record { session_id = "s2"; access = "a2"; refresh = "r2"; csrf = "x2" }

abbrev later : Tokens
later = record { session_id = "s3"; access = "a3"; refresh = "r3"; csrf = "x3" }

-- The fifth failure locks the account for a quarter of an hour.
fifth_failure :
    (login digest lifetimes verify 1000 "mia@example.org" "guess" fresh (store_of mia)).1.users
    ≡ locked ∷ []
unfolding login first count_failure
fifth_failure = refl

still_counted :
    all is_counted
      (login digest lifetimes verify 1000 "mia@example.org" "guess" fresh (store_of mia)).1.users
    ≡ true
still_counted =
    login-counted digest lifetimes verify 1000 "mia@example.org" "guess" fresh (store_of mia) refl

abbrev unsure : User
unsure = record mia { failed_login_count = 2 }

abbrev guess : Guess
guess = record { at = 1000; password = "guess" }

found_session :
    first (λ (x : UserSession). str_eq x.refresh_hash "#r1") (session ∷ []) ≡ some session
unfolding first
found_session = refl

refreshed : is_signed_in (refresh digest lifetimes 1000 "r1" fresh (store_of mia)).0 ≡ true
unfolding refresh first is_in_good_standing
refreshed = refl

refresh_once_example :
    refresh digest lifetimes 1001 "r1" later
      (refresh digest lifetimes 1000 "r1" fresh (store_of mia)).1
    ≡ (refused 401, (refresh digest lifetimes 1000 "r1" fresh (store_of mia)).1)
refresh_once_example =
    refresh_once digest lifetimes 1000 1001 "r1" fresh later (store_of mia) session found_session
      refl refl refreshed

let_in : is_signed_in (consume_magic_link digest lifetimes 1000 "m1" fresh (store_of mia)).0 ≡ true
unfolding consume_magic_link first issue_session is_in_good_standing
let_in = refl

consume_once_example :
    consume_magic_link digest lifetimes 1001 "m1" later
      (consume_magic_link digest lifetimes 1000 "m1" fresh (store_of mia)).1
    ≡ (refused 401, (consume_magic_link digest lifetimes 1000 "m1" fresh (store_of mia)).1)
consume_once_example =
    consume_once digest lifetimes 1000 1001 "m1" fresh later (store_of mia) let_in

abbrev by_cookie : Presented
by_cookie = record { admin_key = none; cookie = "a1"; bearer = ""; csrf = "x1"; reads = false }

recognized :
    current_principal digest digest 1000 by_cookie (store_of mia)
    ≡ signed_in (principal_of "u1" member true)
unfolding current_principal principal_of_session first is_in_good_standing
recognized = refl

current_principal_shown_example :
    IsVouchedFor digest digest 1000 by_cookie (store_of mia) (principal_of "u1" member true)
current_principal_shown_example =
    current_principal_shown digest digest 1000 by_cookie (store_of mia)
      (principal_of "u1" member true) recognized
