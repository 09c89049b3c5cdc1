-- ===== src/Policy/Winner.antt =====
-- The deciding match of `evaluate` (packages/policy-engine/agentguard_policy/__init__.py): higher
-- priority wins, and at equal priority deny wins, then approval, then allow.
use mathlib.Core.List.{Memᴰ}
use aiagentguard.Policy.Evaluation.{Match, rank, precedes, winner}
use aiagentguard.Prelude.{
  ◌≤◌, ◌≡◌, refl, true, false, ◌⊎◌, inl, inr, List, [], ◌∷◌, arith, if◌then◌else◌, Bool-cases,
}
use aiagentguard.Prelude.Int.{ℤ, ltb_ℤ}

-- `x` has lower priority than `w`, or the same and no more severity.
abbrev pub Outranked : {N : Type 0} → Match N → Match N → Type 0
Outranked x w =
    (ltb_ℤ x.priority w.priority ≡ true)
    ⊎ ((x.priority ≡ w.priority) × (rank x.action ≤ rank w.action))

ltb_ℤ-trans : (a b c : ℤ) → ltb_ℤ a b ≡ true → ltb_ℤ b c ≡ true → ltb_ℤ a c ≡ true
ltb_ℤ-trans a b c h k = ground arith

ltb_ℤ_antisymm : (a b : ℤ) → ltb_ℤ a b ≡ false → ltb_ℤ b a ≡ false → a ≡ b
ltb_ℤ_antisymm a b h k = ground arith

module _ {N : Type 0} where
  Outranked-trans : (x y z : Match N) → Outranked x y → Outranked y z → Outranked x z
  Outranked-trans x y z (inl p) (inl q) = inl (ltb_ℤ-trans x.priority y.priority z.priority p q)
  Outranked-trans x y z (inl p) (inr q) = inl (rw (← q.0) p)
  Outranked-trans x y z (inr p) (inl q) = inl (rw p.0 q)
  Outranked-trans x y z (inr p) (inr q) = inr (rw (p.0, q.0), omega arith)

  precedes-Outranked : (a b : Match N) → precedes a b ≡ true → Outranked b a
  unfolding precedes
  precedes-Outranked a b h = ground (arith, ltb_ℤ_antisymm a.priority b.priority)

  not_precedes-Outranked : (a b : Match N) → precedes a b ≡ false → Outranked a b
  unfolding precedes
  not_precedes-Outranked a b h = ground (arith, ltb_ℤ_antisymm a.priority b.priority)

  pub winner-mem : (best : Match N) (ms : List (Match N)) → Memᴰ (winner best ms) (best ∷ ms)
  unfolding winner
  winner-mem best [] = Memᴰ.head refl
  winner-mem best (m ∷ ms) = elim (Bool-cases (precedes m best)) [
    | inl better ↦ rw better (Memᴰ.tail (winner-mem m ms))
    | inr worse ↦ rw worse (skip (winner-mem best ms))
  ]
    where
      skip : {w : Match N} → Memᴰ w (best ∷ ms) → Memᴰ w (best ∷ m ∷ ms)
      skip (Memᴰ.head e) = Memᴰ.head e
      skip (Memᴰ.tail later) = Memᴰ.tail (Memᴰ.tail later)

  abbrev better_of : Match N → Match N → Match N
  better_of m best = if precedes m best then m else best

  better_of-Outranked :
      (m best : Match N) → Outranked m (better_of m best) × Outranked best (better_of m best)
  better_of-Outranked m best = elim (Bool-cases (precedes m best)) [
    | inl better ↦ rw better (inr (refl, omega arith), precedes-Outranked m best better)
    | inr worse ↦ rw worse (not_precedes-Outranked m best worse, inr (refl, omega arith))
  ]

  -- Whatever is outranked by the running best is outranked by the winner.
  winner_keeps :
      (best : Match N) (ms : List (Match N)) (x : Match N)
      → Outranked x best
      → Outranked x (winner best ms)
  unfolding winner
  winner_keeps best [] x h = h
  winner_keeps best (m ∷ ms) x h =
      winner_keeps (better_of m best) ms x
        (Outranked-trans x best (better_of m best) h (better_of-Outranked m best).1)

  winner_later : (ms : List (Match N)) (x best : Match N) → Memᴰ x ms → Outranked x (winner best ms)
  unfolding winner
  winner_later [] x best later = elim later [ ]
  winner_later (m ∷ ms) x best (Memᴰ.head e) =
      winner_keeps (better_of m best) ms x (rw e (better_of-Outranked m best).0)
  winner_later (m ∷ ms) x best (Memᴰ.tail later) = winner_later ms x (better_of m best) later

  -- The winner outranks each of the matches.
  pub winner_best :
      (x best : Match N) (ms : List (Match N)) → Memᴰ x (best ∷ ms) → Outranked x (winner best ms)
  winner_best x best ms (Memᴰ.head e) = winner_keeps best ms x (rw e (inr (refl, omega arith)))
  winner_best x best ms (Memᴰ.tail later) = winner_later ms x best later
