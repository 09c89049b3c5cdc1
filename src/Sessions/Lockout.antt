-- ===== src/Sessions/Lockout.antt =====
-- Failed sign-ins.
use aiagentguard.Sessions.{
  User, Member, Store, Lifetimes, Tokens, user_by_email, member_of_user, update_user, count_failure,
  issue_session, is_valid, signed, login,
}
use aiagentguard.Prelude.{
  ℕ, String, Bool, true, Option, none, some, List, [], ◌∷◌, ◌≡◌, refl, inl, inr, Bool-cases,
  Option-cases, all, map, ltb, if◌then◌else◌, str_eq, arith,
}

-- Fewer than five failures are on record.
abbrev pub is_counted : User → Bool
is_counted u = ltb u.failed_login_count 5

count_failure-counted :
    (now : ℕ) (u : User) → is_counted u ≡ true → is_counted (count_failure now u) ≡ true
unfolding count_failure
count_failure-counted now u h = ground arith

update-counted :
    (id : String) (f : User → User) (us : List User)
    → ((u : User) → is_counted u ≡ true → is_counted (f u) ≡ true)
    → all is_counted us ≡ true
    → all is_counted (map (λ (u : User). if str_eq u.id id then f u else u) us) ≡ true
update-counted id f [] h e = refl
update-counted id f (u ∷ us) h e = ground (arith, h u, update-counted id f us h)

module _ (digest : String → String) (lifetimes : Lifetimes) where
  users-issue :
      (now : ℕ) (user organization : String) (tokens : Tokens) (s s' : Store)
      → issue_session digest lifetimes now user organization tokens s ≡ some s'
      → s'.users ≡ s.users
  unfolding issue_session
  users-issue now user organization tokens s s' h = ground arith

  signed-counted :
      (now : ℕ) (m : Member) (user : String) (tokens : Tokens) (s changed : Store)
      → all is_counted s.users ≡ true
      → all is_counted changed.users ≡ true
      → all is_counted (signed digest lifetimes now m user tokens s changed).1.users ≡ true
  unfolding issue_session
  signed-counted now m user tokens s changed h h' = ground arith

  module _ (verify : String → Option String → Bool) where
    -- No sign-in leaves an account with five failures or more on record.
    pub login-counted :
        (now : ℕ) (email password : String) (tokens : Tokens) (s : Store)
        → all is_counted s.users ≡ true
        → all is_counted (login digest lifetimes verify now email password tokens s).1.users ≡ true
    unfolding login
    login-counted now email password tokens s h = elim (Option-cases (user_by_email email s)) [
      | inl e ↦ ground arith
      | inr (u, e) ↦
          (let written =
              update-counted u.id (count_failure now) s.users (count_failure-counted now) h in
            let cleared =
              update-counted u.id
                (λ (v : User). record v { failed_login_count = 0; locked_until = none }) s.users
                (λ v k. refl) h in
            elim (Bool-cases (is_valid digest lifetimes verify now password u)) [
              | inr wrong ↦ ground (arith, written)
              | inl right ↦ elim (Option-cases (member_of_user u.id s)) [
                | inl none_there ↦ ground arith
                | inr (m, there) ↦ ground (
                  arith,
                  signed-counted now m u.id tokens s
                      (update_user u.id
                        (λ (v : User). record v { failed_login_count = 0; locked_until = none }) s)
                      h cleared,
                )
              ]
            ])
    ]
