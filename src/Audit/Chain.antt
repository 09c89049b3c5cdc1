-- ===== src/Audit/Chain.antt =====
-- The audit chain stays verifiable, can be cut at a checkpoint, and shows what was changed:
-- apps/api/agentguard_api/audit.py.
use aiagentguard.Access.{same_text}
use aiagentguard.Audit.{
  Material, AuditEvent, Log, time_of, latest, insert, sort, previous_hash_of, hashed_text,
  append_audit, verify_from, verify_audit_chain,
}
use aiagentguard.Prelude.{
  ◌<◌, String, ◌≡◌, ◌≢◌, ◌⊎◌, refl, ap, sym, subst, ◌∙◌, inl, inr, Bool, true, false, ◌&&◌, Option,
  none, some, List, [], ◌∷◌, ◌++◌, map, All, leb, str_eq, eq_iff, arith, Bool-cases,
}

module _ {Data : Type 0} where
  -- The rows lie in the order of their times, which all differ.
  abbrev pub Ascending : List (AuditEvent Data) → Type 0
  Ascending [] = Unit
  Ascending (e ∷ es) = All (λ (x : AuditEvent Data). time_of e < time_of x) es × Ascending es

  insert_first :
      (e : AuditEvent Data) (es : List (AuditEvent Data))
      → All (λ (x : AuditEvent Data). time_of e < time_of x) es
      → insert e es ≡ e ∷ es
  unfolding insert
  insert_first e [] h = refl
  insert_first e (x ∷ xs) h =
      let first : leb (time_of e) (time_of x) ≡ true = ground (arith, h.0) in rw first

  pub sort-Ascending : (es : List (AuditEvent Data)) → Ascending es → sort es ≡ es
  unfolding sort
  sort-Ascending [] h = refl
  sort-Ascending (e ∷ es) h = rw (sort-Ascending es h.1) (insert_first e es h.0)

  abbrev last_of : AuditEvent Data → List (AuditEvent Data) → AuditEvent Data
  last_of e [] = e
  last_of e (x ∷ xs) = last_of x xs

  last_of-later :
      (e x : AuditEvent Data) (xs : List (AuditEvent Data))
      → All (λ (y : AuditEvent Data). time_of e < time_of y) (x ∷ xs)
      → time_of e < time_of (last_of x xs)
  last_of-later e x [] h = h.0
  last_of-later e x (y ∷ ys) h = last_of-later e y ys h.1

  latest-Ascending :
      (e : AuditEvent Data) (es : List (AuditEvent Data))
      → Ascending (e ∷ es)
      → latest (e ∷ es) ≡ some (last_of e es)
  unfolding latest
  latest-Ascending e [] h = refl
  latest-Ascending e (x ∷ xs) h =
      let later : leb (time_of e) (time_of (last_of x xs)) ≡ true =
        ground (arith, last_of-later e x xs h.0) in
      rw (latest-Ascending x xs h.1, later)

  -- The hash at the end of a chain.
  abbrev pub end_hash : Option String → List (AuditEvent Data) → Option String
  end_hash previous [] = previous
  end_hash previous (e ∷ es) = end_hash (some e.event_hash) es

  end_hash-last :
      (previous : Option String) (e : AuditEvent Data) (es : List (AuditEvent Data))
      → end_hash previous (e ∷ es) ≡ some (last_of e es).event_hash
  end_hash-last previous e [] = refl
  end_hash-last previous e (x ∷ xs) = end_hash-last (some e.event_hash) x xs

  previous_hash-end :
      (log : Log Data)
      → Ascending log.events
      → previous_hash_of log ≡ end_hash log.archived_through_hash log.events
  unfolding previous_hash_of latest
  previous_hash-end log h = go log.events h
    where
      go :
          (es : List (AuditEvent Data))
          → Ascending es
          → elim (latest es) [ none ↦ log.archived_through_hash | some e ↦ some e.event_hash ]
            ≡ end_hash log.archived_through_hash es
      go [] h = refl
      go (e ∷ es) h =
          rw (latest-Ascending e es h) (sym (end_hash-last log.archived_through_hash e es))

  All-append :
      (P : AuditEvent Data → Type 0) (es : List (AuditEvent Data)) (x : AuditEvent Data)
      → All P es
      → P x
      → All P (es ++ (x ∷ []))
  All-append P [] x h p = (p, tt)
  All-append P (e ∷ es) x h p = (h.0, All-append P es x h.1 p)

  Ascending-append :
      (es : List (AuditEvent Data)) (x : AuditEvent Data)
      → Ascending es
      → All (λ (e : AuditEvent Data). time_of e < time_of x) es
      → Ascending (es ++ (x ∷ []))
  Ascending-append [] x h before = (tt, tt)
  Ascending-append (e ∷ es) x h before = (
    All-append (λ (y : AuditEvent Data). time_of e < time_of y) es x h.0 before.0,
    Ascending-append es x h.1 before.1,
  )

all_true : (a b c : Bool) → a && (b && c) ≡ true → (b ≡ true) × (c ≡ true)
all_true a b c h = ground arith

true_not_false : {b : Bool} → b ≡ true → b ≡ false → ⊥
true_not_false p q = cc

both_true : {a b : Bool} → a ≡ true → b ≡ true → a && b ≡ true
both_true p q = ground arith

same_text_refl : (text : Option String) → same_text text text ≡ true
same_text_refl none = refl
same_text_refl (some text) = (eq_iff text text).1 refl

module _ {Data : Type 0} (sha256 : String → String) (dumps : Material Data → String) where
  pub verify_from-append :
      (previous : Option String) (xs ys : List (AuditEvent Data))
      → verify_from sha256 dumps previous (xs ++ ys)
        ≡ verify_from sha256 dumps previous xs && verify_from sha256 dumps (end_hash previous xs) ys
  unfolding verify_from
  verify_from-append previous [] ys = refl
  verify_from-append previous (x ∷ xs) ys =
      ground (arith, verify_from-append (some x.event_hash) xs ys)

  one_link :
      (previous : Option String) (e : AuditEvent Data)
      → e.material.previous_hash ≡ previous
      → e.event_hash ≡ sha256 (hashed_text sha256 dumps previous e.material)
      → verify_from sha256 dumps previous (e ∷ []) ≡ true
  unfolding verify_from
  one_link previous e p q =
      both_true (subst (λ h. same_text h previous ≡ true) (sym p) (same_text_refl previous)) (
        both_true
          ((eq_iff (sha256 (hashed_text sha256 dumps previous e.material)) e.event_hash).1 (sym q))
          refl)

  -- An event that is appended later than all events of a log whose rows have ascending times and
  -- whose chain verifies from its checkpoint leaves such a log, whatever the hash function is.
  pub append_audit_verifies :
      (redact : Data → Data) (given : Material Data) (log : Log Data)
      → Ascending log.events
      → All (λ (e : AuditEvent Data). time_of e < given.occurred_at) log.events
      → verify_audit_chain sha256 dumps log.events log.archived_through_hash ≡ true
      → let after = (append_audit sha256 dumps redact given log).1 in
        Ascending after.events
        × (verify_audit_chain sha256 dumps after.events after.archived_through_hash ≡ true)
  unfolding append_audit verify_audit_chain
  append_audit_verifies redact given log ascending before valid =
      let e = (append_audit sha256 dumps redact given log).0 in
      let start = log.archived_through_hash in
      let after = Ascending-append log.events e ascending before in
      let old : verify_from sha256 dumps start log.events ≡ true =
        ap (verify_from sha256 dumps start) (sym (sort-Ascending log.events ascending)) ∙ valid in
      let linked = previous_hash-end log ascending in
      let new : verify_from sha256 dumps (end_hash start log.events) (e ∷ []) ≡ true =
        one_link (end_hash start log.events) e linked
          (ap (λ previous. sha256 (hashed_text sha256 dumps previous e.material)) linked) in
      (
        after,
        ap (verify_from sha256 dumps start) (sort-Ascending (log.events ++ (e ∷ [])) after)
            ∙ (verify_from-append start log.events (e ∷ []) ∙ both_true old new),
      )

  -- Two texts with the same hash.
  abbrev pub Collision : Type 0
  Collision = (s : String) × (t : String) × (s ≢ t) × (sha256 s ≡ sha256 t)

  -- The texts that a chain hashes, from the hash that it starts at.
  abbrev pub texts_of : Option String → List (AuditEvent Data) → List String
  texts_of previous [] = []
  texts_of previous (e ∷ es) =
      hashed_text sha256 dumps previous e.material ∷ texts_of (some e.event_hash) es

  first_hash :
      (previous : Option String) (e : AuditEvent Data) (es : List (AuditEvent Data))
      → verify_from sha256 dumps previous (e ∷ es) ≡ true
      → (sha256 (hashed_text sha256 dumps previous e.material) ≡ e.event_hash)
        × (verify_from sha256 dumps (some e.event_hash) es ≡ true)
  unfolding verify_from
  first_hash previous e es h =
      let linked = same_text e.material.previous_hash previous in
      let hashed = str_eq (sha256 (hashed_text sha256 dumps previous e.material)) e.event_hash in
      let later = verify_from sha256 dumps (some e.event_hash) es in
      let (p, q) = all_true linked hashed later h in
      ((eq_iff (sha256 (hashed_text sha256 dumps previous e.material)) e.event_hash).0 p, q)

  chains_agree :
      (previous : Option String) (xs ys : List (AuditEvent Data))
      → verify_from sha256 dumps previous xs ≡ true
      → verify_from sha256 dumps previous ys ≡ true
      → map (λ (e : AuditEvent Data). e.event_hash) xs
        ≡ map (λ (e : AuditEvent Data). e.event_hash) ys
      → (texts_of previous xs ≡ texts_of previous ys) ⊎ Collision
  chains_agree previous [] [] v w same = inl refl
  chains_agree previous [] (y ∷ ys) v w same = absurd (cc)
  chains_agree previous (x ∷ xs) [] v w same = absurd (cc)
  chains_agree previous (x ∷ xs) (y ∷ ys) v w same =
      let s = hashed_text sha256 dumps previous x.material in
      let t = hashed_text sha256 dumps previous y.material in
      let (p, v') = first_hash previous x xs v in
      let (q, w') = first_hash previous y ys w in
      let heads : x.event_hash ≡ y.event_hash = cc in
      let tails : map (λ (e : AuditEvent Data). e.event_hash) xs
          ≡ map (λ (e : AuditEvent Data). e.event_hash) ys =
        cc in
      let w'' = subst (λ h. verify_from sha256 dumps (some h) ys ≡ true) (sym heads) w' in
      elim (Bool-cases (str_eq s t)) [
        | inr differ ↦
            inr (s, t, (λ e. true_not_false ((eq_iff s t).1 e) differ), p ∙ (heads ∙ sym q))
        | inl agree ↦ elim (chains_agree (some x.event_hash) xs ys v' w'' tails) [
          | inr collision ↦ inr collision
          | inl rest ↦ inl (
              ap (λ u. u ∷ texts_of (some x.event_hash) xs) ((eq_iff s t).0 agree)
              ∙ ap (λ us. t ∷ us) (rest ∙ ap (λ h. texts_of (some h) ys) heads))
        ]
      ]

  -- Two chains that verify from the same hash and whose events carry the same hashes in order have
  -- hashed the same texts, or show two texts with the same SHA-256.
  pub changes_show :
      (start : Option String) (xs ys : List (AuditEvent Data))
      → verify_audit_chain sha256 dumps xs start ≡ true
      → verify_audit_chain sha256 dumps ys start ≡ true
      → map (λ (e : AuditEvent Data). e.event_hash) (sort xs)
        ≡ map (λ (e : AuditEvent Data). e.event_hash) (sort ys)
      → (texts_of start (sort xs) ≡ texts_of start (sort ys)) ⊎ Collision
  unfolding verify_audit_chain
  changes_show start xs ys v w same = chains_agree start (sort xs) (sort ys) v w same
