-- ===== src/Dlp/Custom.antt =====
-- `validate_custom_patterns` of packages/shared-types/agentguard_shared/__init__.py. `compile` is what
-- `re.compile` and then `re.sub` make of an expression, if it is one; `none` is a ValueError.
use Prim.Native.String.{count as text_length}
use aiagentguard.Json.{Value, null, str, list, dict, Items, nil, cons, get, count}
use aiagentguard.Dlp.{Pattern}
use aiagentguard.Prelude.{
  ℕ, suc, ◌≤◌, String, Bool, true, false, not, ◌&&◌, ◌||◌, Option, none, some, List, [], ◌∷◌, ◌≡◌,
  refl, ap, subst, inl, inr, Option-cases, All, any, length, leb, ltb, ◌==◌, if◌then◌else◌, str_eq,
  codes, arith,
}

-- `*`, `+`, `{`, `}`, `(`, `)` and `|`.
abbrev tokens : List ℕ
tokens = 42 ∷ 43 ∷ 123 ∷ 125 ∷ 40 ∷ 41 ∷ 124 ∷ []

abbrev is_token : ℕ → Bool
is_token c = any (λ t. c == t) tokens

-- A backslash before a digit that is not 0.
unfoldable pub has_reference : List ℕ → Bool
has_reference [] = false
has_reference (c ∷ []) = false
has_reference (c ∷ d ∷ cs) =
    let later = has_reference (d ∷ cs) in ((c == 92) && (leb 49 d && leb d 57)) || later

abbrev is_repetitive : String → Bool
is_repetitive expression = any is_token (codes expression) || has_reference (codes expression)

abbrev has_lengths : String → String → Bool
has_lengths expression name =
    not (str_eq expression "") && (leb (text_length expression) 256 && leb (text_length name) 64)

abbrev text_or : {N : Type 0} → String → Option (Value N) → Option String
text_or default none = some default
text_or default (some (str text)) = some text
text_or default (some v) = none

abbrev compiled : String → Option (String → ℕ × String) → Option Pattern
compiled name none = none
compiled name (some sub) = some (record { kind = name; sub = sub })

some_injective : {A : Type 0} {x y : A} → some x ≡ some y → x ≡ y
some_injective {x} e = ap (λ o. elim o [ none ↦ x | some z ↦ z ]) e

abbrev put_first {ℓ} : {A : Type ℓ} → Option A → Option (List A) → Option (List A)
put_first (some x) (some xs) = some (x ∷ xs)
put_first _ _ = none

module _ (compile : String → Option (String → ℕ × String)) where
  unfoldable pub pattern_of : Option String → Option String → Option Pattern
  pattern_of (some expression) (some name) =
      if not (has_lengths expression name) || is_repetitive expression
      then none
      else compiled name (compile expression)
  pattern_of _ _ = none

  abbrev entry_of : {N : Type 0} → Value N → Option Pattern
  entry_of (dict entry) =
      pattern_of (text_or "" (get "pattern" entry)) (text_or "custom" (get "name" entry))
  entry_of _ = none

  unfoldable pub entries_of : {N : Type 0} → Items N → Option (List Pattern)
  entries_of nil = some []
  entries_of (cons entry rest) = put_first (entry_of entry) (entries_of rest)

  unfoldable pub validate_custom_patterns : {N : Type 0} → Value N → Option (List Pattern)
  validate_custom_patterns null = some []
  validate_custom_patterns (list entries) =
      if ltb 32 (count entries) then none else entries_of entries
  validate_custom_patterns _ = none

  -- A pattern that comes of an expression which cannot make a search explode.
  abbrev pub IsSafe : Pattern → Type 0
  IsSafe p =
      (expression : String) × (compile expression ≡ some p.sub)
      × (has_lengths expression p.kind ≡ true)
      × (any is_token (codes expression) ≡ false)
      × (has_reference (codes expression) ≡ false)

  pattern-Safe :
      (expression name : Option String) (p : Pattern)
      → pattern_of expression name ≡ some p
      → IsSafe p
  unfolding pattern_of
  pattern-Safe none name p h = absurd (ground arith)
  pattern-Safe (some expression) none p h = absurd (ground arith)
  pattern-Safe (some expression) (some name) p h = elim (Option-cases (compile expression)) [
    | inl e ↦ absurd (ground arith)
    | inr (sub, e) ↦
        let made : Pattern = record { kind = name; sub = sub } in
        let same : some made ≡ some p = ground (arith, e) in
        subst IsSafe (some_injective same) (expression, e, ground arith, ground arith, ground arith)
  ]

  entry-Safe : {N : Type 0} (v : Value N) (p : Pattern) → entry_of v ≡ some p → IsSafe p
  entry-Safe (dict entry) p h =
      pattern-Safe (text_or "" (get "pattern" entry)) (text_or "custom" (get "name" entry)) p h
  entry-Safe v p h = absurd (ground arith)

  entries-Safe :
      {N : Type 0} (entries : Items N) (ps : List Pattern)
      → entries_of entries ≡ some ps
      → (length ps ≡ count entries) × All IsSafe ps
  unfolding entries_of count
  entries-Safe nil [] h = (refl, tt)
  entries-Safe nil (p ∷ ps) h = absurd (ground arith)
  entries-Safe (cons v rest) ps h = elim (Option-cases (entry_of v)) [
    | inl e ↦ absurd (ground arith)
    | inr (p, e) ↦ elim (Option-cases (entries_of rest)) [
      | inl e' ↦ absurd (ground arith)
      | inr (qs, e') ↦
          let same : some (p ∷ qs) ≡ some ps = ground (arith, e, e') in
          let (sizes, safe) = entries-Safe rest qs e' in
          subst (λ xs. (length xs ≡ suc (count rest)) × All IsSafe xs) (some_injective same)
            (ap suc sizes, (entry-Safe v p e, safe))
    ]
  ]

  -- The patterns that validation lets through are at most 32, one for each entry, and each comes of an
  -- expression of at most 256 characters, none of which repeats or groups, without a back reference,
  -- under a name of at most 64 characters.
  pub validate_custom_patterns-Safe :
      {N : Type 0} (entries : Items N) (ps : List Pattern)
      → validate_custom_patterns (list entries) ≡ some ps
      → (length ps ≤ 32) × (length ps ≡ count entries) × All IsSafe ps
  unfolding validate_custom_patterns
  validate_custom_patterns-Safe entries ps h =
      let small : ltb 32 (count entries) ≡ false = ground arith in
      let (sizes, safe) = entries-Safe entries ps (ground arith) in
      (ground (arith, small, sizes), sizes, safe)
