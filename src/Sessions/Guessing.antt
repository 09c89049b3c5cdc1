-- ===== src/Sessions/Guessing.antt =====
-- Wrong passwords in a row: `login` of apps/api/agentguard_api/auth_routes.py.
use aiagentguard.Sessions.{User, Store, Lifetimes, Tokens, user_by_email, count_failure, login}
use aiagentguard.Prelude.{
  ℕ, String, Bool, not, Option, some, List, [], ◌∷◌, ◌≡◌, str_eq, if◌then◌else◌,
}

pub record Guess : Type 0 where
  pub at : ℕ
  pub password : String

abbrev count_for : ℕ → String → User → User
count_for now id u = if str_eq u.id id then count_failure now u else u

module _ (digest : String → String) (lifetimes : Lifetimes)
    (verify : String → Option String → Bool) where
  -- Sign-ins to one account, one after another.
  abbrev pub guess_all : String → Tokens → List Guess → Store → Store
  guess_all email tokens [] s = s
  guess_all email tokens (g ∷ gs) s =
      guess_all email tokens gs (login digest lifetimes verify g.at email g.password tokens s).1

  abbrev pub is_wrong : User → Guess → Bool
  is_wrong u g = not (verify g.password u.password_hash)

  -- The account after some wrong guesses that leave it one short of the lock.
  record Guessed (email : String) (u : User) (s s' : Store) : Type 0 where
    user : User
    found : user_by_email email s' ≡ some user
    same : user.password_hash ≡ u.password_hash
    counted : user.failed_login_count ≡ 4
    kept : s'.sessions ≡ s.sessions
