-- ===== src/Sessions/Rotation.antt =====
-- A refresh token and a magic link serve once.
use text.Mathlib.TextEquality.{eq_iff}
use aiagentguard.Sessions.{
  UserSession, MagicLink, Member, Store, Lifetimes, Tokens, Answer, refused, signed_in,
  issue_session, signed, member_of_user, session_by_refresh, renewed, refresh, link_by_token,
  consume, consume_magic_link,
}
use aiagentguard.Prelude.{
  ℕ, String, Bool, true, false, not, ◌||◌, none, some, List, [], ◌∷◌, ◌≡◌, refl, ◌∙◌, ap, inl, inr,
  Option-cases, all, first, mapped, first-map, map, if◌then◌else◌, str_eq, arith,
}

abbrev pub is_signed_in : Answer → Bool
is_signed_in (signed_in principal) = true
is_signed_in _ = false

first-fails :
    {A : Type 0} (test : A → Bool) (xs : List A)
    → all (λ x. not (test x)) xs ≡ true
    → first test xs ≡ none
unfolding first
first-fails test [] h = refl
first-fails test (x ∷ xs) h = ground (arith, first-fails test xs)

all-map :
    {A : Type 0} (p q : A → Bool) (f : A → A) (xs : List A)
    → ((x : A) → p x ≡ true → q (f x) ≡ true)
    → all p xs ≡ true
    → all q (map f xs) ≡ true
all-map p q f [] h e = refl
all-map p q f (x ∷ xs) h e = ground (arith, h x, all-map p q f xs h)

module _ (digest : String → String) (lifetimes : Lifetimes) where
  -- The hash of a refresh token belongs to one session.
  abbrev pub belongs_to : String → UserSession → UserSession → Bool
  belongs_to raw x y = not (str_eq y.refresh_hash (digest raw)) || str_eq y.id x.id

  abbrev step : ℕ → Tokens → UserSession → UserSession → UserSession
  step now tokens x y = if str_eq y.id x.id then renewed digest lifetimes now tokens y else y

  step_changes :
      (now : ℕ) (raw : String) (tokens : Tokens) (x y : UserSession)
      → str_eq (digest tokens.refresh) (digest raw) ≡ false
      → belongs_to raw x y ≡ true
      → not (str_eq (step now tokens x y).refresh_hash (digest raw)) ≡ true
  step_changes now raw tokens x y fresh h = ground arith

  gone :
      (now : ℕ) (raw : String) (tokens : Tokens) (s : Store) (x : UserSession)
      → str_eq (digest tokens.refresh) (digest raw) ≡ false
      → all (belongs_to raw x) s.sessions ≡ true
      → first
          (λ (y : UserSession). str_eq y.refresh_hash (digest raw))
          (map (step now tokens x) s.sessions)
        ≡ none
  gone now raw tokens s x fresh h =
      first-fails (λ (y : UserSession). str_eq y.refresh_hash (digest raw))
        (map (step now tokens x) s.sessions)
        (all-map (belongs_to raw x) (λ y. not (str_eq y.refresh_hash (digest raw)))
          (step now tokens x) s.sessions (λ y b. step_changes now raw tokens x y fresh b) h)

  refused_again :
      (later : ℕ) (raw : String) (tokens : Tokens) (s : Store)
      → session_by_refresh digest raw s ≡ none
      → refresh digest lifetimes later raw tokens s ≡ (refused 401, s)
  unfolding refresh
  refused_again later raw tokens s h = ground arith

  still_gone :
      (now : ℕ) (raw : String) (tokens : Tokens) (s : Store) (x : UserSession)
      → session_by_refresh digest raw s ≡ some x
      → all (belongs_to raw x) s.sessions ≡ true
      → str_eq (digest tokens.refresh) (digest raw) ≡ false
      → is_signed_in (refresh digest lifetimes now raw tokens s).0 ≡ true
      → session_by_refresh digest raw (refresh digest lifetimes now raw tokens s).1 ≡ none
  unfolding refresh
  still_gone now raw tokens s x found unique fresh h =
      ground (arith, gone now raw tokens s x fresh unique)

  -- A refresh that succeeds makes its token worthless: from then on the token is refused, if the new
  -- token has another digest and digests of refresh tokens are unique.
  pub refresh_once :
      (now later : ℕ) (raw : String) (tokens tokens' : Tokens) (s : Store) (x : UserSession)
      → session_by_refresh digest raw s ≡ some x
      → all (belongs_to raw x) s.sessions ≡ true
      → str_eq (digest tokens.refresh) (digest raw) ≡ false
      → is_signed_in (refresh digest lifetimes now raw tokens s).0 ≡ true
      → refresh digest lifetimes later raw tokens' (refresh digest lifetimes now raw tokens s).1
        ≡ (refused 401, (refresh digest lifetimes now raw tokens s).1)
  refresh_once now later raw tokens tokens' s x found unique fresh h =
      refused_again later raw tokens' (refresh digest lifetimes now raw tokens s).1
        (still_gone now raw tokens s x found unique fresh h)

  abbrev mark : ℕ → String → MagicLink → MagicLink
  mark now id l = if str_eq l.id id then consume now l else l

  link_marked :
      (now : ℕ) (token : String) (s : Store) (link : MagicLink)
      → link_by_token digest token s ≡ some link
      → first
          (λ (l : MagicLink). str_eq l.token_hash (digest token))
          (map (mark now link.id) s.links)
        ≡ some (consume now link)
  link_marked now token s link found =
      first-map (λ (l : MagicLink). str_eq l.token_hash (digest token)) (mark now link.id) s.links
        (λ l. ground arith)
      ∙ (ap (mapped (mark now link.id)) found ∙ rw ((eq_iff link.id link.id).1 refl) refl)

  links-signed :
      (now : ℕ) (m : Member) (user : String) (tokens : Tokens) (s changed : Store)
      → is_signed_in (signed digest lifetimes now m user tokens s changed).0 ≡ true
      → (signed digest lifetimes now m user tokens s changed).1.links ≡ changed.links
  unfolding issue_session
  links-signed now m user tokens s changed h = ground arith

  -- A link that let someone in is refused from then on.
  pub consume_once :
      (now later : ℕ) (token : String) (tokens tokens' : Tokens) (s : Store)
      → is_signed_in (consume_magic_link digest lifetimes now token tokens s).0 ≡ true
      → consume_magic_link digest lifetimes later token tokens'
          (consume_magic_link digest lifetimes now token tokens s).1
        ≡ (refused 401, (consume_magic_link digest lifetimes now token tokens s).1)
  unfolding consume_magic_link
  consume_once now later token tokens tokens' s h =
      elim (Option-cases (link_by_token digest token s)) [
        | inl e ↦ absurd (ground arith)
        | inr (link, e) ↦ elim (Option-cases (member_of_user link.user_id s)) [
          | inl e' ↦ absurd (ground arith)
          | inr (m, e') ↦
              let changed : Store = record s { links = map (mark now link.id) s.links } in
              ground (
                arith,
                link_marked now token s link e,
                links-signed now m link.user_id tokens s changed,
              )
        ]
      ]
