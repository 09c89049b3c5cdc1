-- ===== src/Prelude/Lists.antt =====
-- Lists over native numbers: length, quantifiers as predicates and as tests.
use Prim.Native.Nat.{ℕ, suc, ◌+◌}
use mathlib.Core.Path.{◌≡◌, refl}
use mathlib.Core.Bool.{Bool, true, false, ◌&&◌, ◌||◌}
use mathlib.Core.Option.{Option, none, some}
use mathlib.Core.List.{List, [], ◌∷◌, ◌++◌, map}
use mathlib.Core.Logic.{inl, inr}
use aiagentguard.Prelude.Tests.{Bool-cases}
use native.Mathlib.Omega.{arith}

abbrev pub All {ℓ κ} : {A : Type ℓ} → (A → Type κ) → List A → Type κ
All P [] = Unit
All P (x ∷ xs) = P x × All P xs

abbrev pub mapped {ℓ} : {A : Type ℓ} → (A → A) → Option A → Option A
mapped f none = none
mapped f (some x) = some (f x)

module _ {ℓ} {A : Type ℓ} where
  abbrev pub length : List A → ℕ
  length [] = 0
  length (x ∷ xs) = suc (length xs)

  -- Python's `any(test(x) for x in xs)` and `all(…)`.
  abbrev pub any : (A → Bool) → List A → Bool
  any test [] = false
  any test (x ∷ xs) = test x || any test xs

  abbrev pub all : (A → Bool) → List A → Bool
  all test [] = true
  all test (x ∷ xs) = test x && all test xs

  -- The rows of a query: those that pass its `where` clause, in order.
  abbrev pub select : (A → Bool) → List A → List A
  select test [] = []
  select test (x ∷ xs) =
      let rest = select test xs in elim (test x) [ true ↦ x ∷ rest | false ↦ rest ]

  -- `db.scalar(select(…).where(test))`: the first row that passes, if there is one.
  unfoldable pub first : (A → Bool) → List A → Option A
  first test [] = none
  first test (x ∷ xs) = let later = first test xs in elim (test x) [ true ↦ some x | false ↦ later ]

  pub length-append : (xs ys : List A) → length (xs ++ ys) ≡ length xs + length ys
  length-append [] ys = omega arith
  length-append (x ∷ xs) ys = omega (arith, length-append xs ys)

  pub first-map :
      (test : A → Bool) (f : A → A) (xs : List A)
      → ((x : A) → test (f x) ≡ test x)
      → first test (map f xs) ≡ mapped f (first test xs)
  unfolding first
  first-map test f [] h = refl
  first-map test f (x ∷ xs) h = elim (Bool-cases (test x)) [
    | inl e ↦ rw (mapped, h x, e) refl
    | inr e ↦ rw (mapped, h x, e) (first-map test f xs h)
  ]

  pub first-passes :
      (test : A → Bool) (xs : List A) (x : A) → first test xs ≡ some x → test x ≡ true
  unfolding first
  first-passes test [] x h = ground arith
  first-passes test (y ∷ ys) x h = elim (Bool-cases (test y)) [
    | inl e ↦ ground arith
    | inr e ↦ first-passes test ys x (ground arith)
  ]
