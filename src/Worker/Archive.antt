-- ===== src/Worker/Archive.antt =====
-- `archive_audit` of apps/worker/agentguard_worker/main.py for one organization, on the log of
-- apps/api/agentguard_api/audit.py. Of the checkpoint the hash is kept; the upload of the lines, which
-- comes before anything is written, is left out.
use text.Mathlib.TextEquality.{eq_iff}
use aiagentguard.Audit.{Material, AuditEvent, Log, time_of, sort, verify_from, verify_audit_chain}
use aiagentguard.Audit.Chain.{Ascending, end_hash, sort-Ascending, verify_from-append}
use aiagentguard.Authorize.Limits.{plan_limits}
use aiagentguard.Worker.Deliveries.{limit}
use aiagentguard.Prelude.{
  ℕ, zero, suc, ◌-◌, ◌*◌, ◌<◌, String, Bool, true, false, not, ◌&&◌, Option, List, [], ◌∷◌, ◌++◌,
  ◌≡◌, refl, sym, ap, ◌∙◌, subst, inl, inr, Bool-cases, All, all, any, ltb, select, str_eq, arith,
}

-- `datetime.now() - timedelta(days=retention)`, in seconds.
abbrev pub cutoff_of : ℕ → String → ℕ
cutoff_of now plan = now - (plan_limits plan).retention_days * 86400

str_eq_sym : (a b : String) → str_eq a b ≡ false → str_eq b a ≡ false
str_eq_sym a b h = elim (Bool-cases (str_eq b a)) [
  | inr e ↦ e
  | inl e ↦ absurd (differ (sym ((eq_iff a b).1 (sym ((eq_iff b a).0 e))) ∙ h))
]
  where
    differ : true ≡ false → ⊥
    differ e = ground arith

module _ {A : Type 0} where
  select-drop :
      (test : A → Bool) (xs ys : List A)
      → all (λ x. not (test x)) xs ≡ true
      → select test (xs ++ ys) ≡ select test ys
  select-drop test [] ys h = refl
  select-drop test (x ∷ xs) ys h =
      let out : test x ≡ false = ground arith in
      rw (select, out) (select-drop test xs ys (ground arith))

  select-keep : (test : A → Bool) (xs : List A) → all test xs ≡ true → select test xs ≡ xs
  select-keep test [] h = refl
  select-keep test (x ∷ xs) h =
      let kept : test x ≡ true = ground arith in
      rw (select, kept) (ap (λ zs. x ∷ zs) (select-keep test xs (ground arith)))

  all-implies :
      (p q : A → Bool) (xs : List A)
      → ((x : A) → p x ≡ true → q x ≡ true)
      → all p xs ≡ true
      → all q xs ≡ true
  all-implies p q [] f h = refl
  all-implies p q (x ∷ xs) f h = ground (arith, f x, all-implies p q xs f)

module _ {Data : Type 0} where
  abbrev pub has_id : List (AuditEvent Data) → AuditEvent Data → Bool
  has_id es e = any (λ (x : AuditEvent Data). str_eq e.material.id x.material.id) es

  abbrev pub old_events : ℕ → ℕ → List (AuditEvent Data) → List (AuditEvent Data)
  old_events batch cutoff es = limit batch (select (λ e. ltb (time_of e) cutoff) (sort es))

  -- The checkpoint moves to the last event that is archived, and the archived ones are deleted.
  unfoldable pub archive_events : List (AuditEvent Data) → Log Data → Log Data
  archive_events [] log = log
  archive_events (e ∷ es) log = record log {
    archived_through_hash = end_hash log.archived_through_hash (e ∷ es);
    events = select (λ x. not (has_id (e ∷ es) x)) log.events;
  }

  unfoldable pub archive_audit : ℕ → ℕ → String → Log Data → Log Data
  archive_audit batch now plan log =
      archive_events (old_events batch (cutoff_of now plan) log.events) log

  -- Ids are unique.
  abbrev pub distinct : List (AuditEvent Data) → Bool
  distinct [] = true
  distinct (e ∷ es) = not (has_id es e) && distinct es

  old_prefix :
      (batch cutoff : ℕ) (es : List (AuditEvent Data))
      → Ascending es
      → (rest : List (AuditEvent Data)) × (es
          ≡ limit batch (select (λ e. ltb (time_of e) cutoff) es) ++ rest)
  unfolding limit
  old_prefix zero cutoff es h = (es, refl)
  old_prefix (suc n) cutoff [] h = ([], refl)
  old_prefix (suc n) cutoff (e ∷ es) h = elim (Bool-cases (ltb (time_of e) cutoff)) [
    | inl old ↦
        let (rest, same) = old_prefix n cutoff es h.1 in
        (rest, rw (select, old) (ap (λ xs. e ∷ xs) same))
    | inr new ↦ (e ∷ es, rw (select, new, none_old es h.0 new) refl)
  ]
    where
      none_old :
          (es : List (AuditEvent Data))
          → All (λ (x : AuditEvent Data). time_of e < time_of x) es
          → ltb (time_of e) cutoff ≡ false
          → select (λ x. ltb (time_of x) cutoff) es ≡ []
      none_old [] later new = refl
      none_old (x ∷ xs) later new =
          let young : ltb (time_of x) cutoff ≡ false = ground (arith, later.0) in
          rw (select, young) (none_old xs later.1 new)

  Ascending-rest : (xs ys : List (AuditEvent Data)) → Ascending (xs ++ ys) → Ascending ys
  Ascending-rest [] ys h = h
  Ascending-rest (x ∷ xs) ys h = Ascending-rest xs ys h.1

  apart-rest :
      (x : AuditEvent Data) (xs ys : List (AuditEvent Data))
      → has_id (xs ++ ys) x ≡ false
      → has_id ys x ≡ false
  apart-rest x [] ys h = h
  apart-rest x (z ∷ zs) ys h = apart-rest x zs ys (ground arith)

  archived_found : (xs : List (AuditEvent Data)) → all (λ x. not (not (has_id xs x))) xs ≡ true
  archived_found [] = refl
  archived_found (x ∷ xs) = ground (
    arith,
    (eq_iff x.material.id x.material.id).1 refl,
    all-implies (λ y. not (not (has_id xs y))) (λ y. not (not (has_id (x ∷ xs) y))) xs
        (λ y h. ground arith) (archived_found xs),
  )

  apart_from :
      (x : AuditEvent Data) (xs ys : List (AuditEvent Data))
      → all (λ y. not (has_id xs y)) ys ≡ true
      → has_id ys x ≡ false
      → all (λ y. not (has_id (x ∷ xs) y)) ys ≡ true
  apart_from x xs [] h e = refl
  apart_from x xs (y ∷ ys) h e = ground (
    arith,
    str_eq_sym x.material.id y.material.id (ground arith),
    apart_from x xs ys (ground arith) (ground arith),
  )

  rest_kept :
      (xs ys : List (AuditEvent Data))
      → distinct (xs ++ ys) ≡ true
      → all (λ y. not (has_id xs y)) ys ≡ true
  rest_kept [] ys h = all_kept ys
    where
      all_kept : (ys : List (AuditEvent Data)) → all (λ y. not (has_id [] y)) ys ≡ true
      all_kept [] = refl
      all_kept (y ∷ ys) = all_kept ys
  rest_kept (x ∷ xs) ys h =
      apart_from x xs ys (rest_kept xs ys (ground arith)) (apart-rest x xs ys (ground arith))

  -- What is deleted is the prefix.
  deleted :
      (xs ys : List (AuditEvent Data))
      → distinct (xs ++ ys) ≡ true
      → select (λ x. not (has_id xs x)) (xs ++ ys) ≡ ys
  deleted xs ys h =
      select-drop (λ x. not (has_id xs x)) xs ys (archived_found xs)
      ∙ select-keep (λ x. not (has_id xs x)) ys (rest_kept xs ys h)

  module _ (sha256 : String → String) (dumps : Material Data → String) where
    abbrev pub IsVerified : List (AuditEvent Data) → Option String → Type 0
    IsVerified es previous = Ascending es × (verify_audit_chain sha256 dumps es previous ≡ true)

    rest-Verified :
        (xs ys : List (AuditEvent Data)) (previous : Option String)
        → IsVerified (xs ++ ys) previous
        → IsVerified ys (end_hash previous xs)
    unfolding verify_audit_chain
    rest-Verified xs ys previous (up, h) =
        let up' = Ascending-rest xs ys up in
        let whole =
          subst (λ es. verify_from sha256 dumps previous es ≡ true) (sort-Ascending (xs ++ ys) up)
            h in
        (
          up',
          rw (sort-Ascending ys up')
              (ground (arith, verify_from-append sha256 dumps previous xs ys)),
        )

    archived-Verified :
        (log : Log Data) (items rest : List (AuditEvent Data))
        → log.events ≡ items ++ rest
        → distinct log.events ≡ true
        → IsVerified log.events log.archived_through_hash
        → IsVerified
            (archive_events items log).events
            (archive_events items log).archived_through_hash
    unfolding archive_events
    archived-Verified log [] rest split apart h = h
    archived-Verified log (e ∷ es) rest split apart h =
        let left =
          subst (λ xs. select (λ x. not (has_id (e ∷ es) x)) xs ≡ rest) (sym split)
            (deleted (e ∷ es) rest (subst (λ xs. distinct xs ≡ true) split apart)) in
        let good =
          rest-Verified (e ∷ es) rest log.archived_through_hash
            (subst (λ xs. IsVerified xs log.archived_through_hash) split h) in
        subst (λ xs. IsVerified xs (end_hash log.archived_through_hash (e ∷ es))) (sym left) good

    -- Archiving old events of a log in the order of its times, with unique ids, leaves a log that is in
    -- order, and that verifies from the checkpoint if it did before.
    pub archive_audit_verifies :
        (batch now : ℕ) (plan : String) (log : Log Data)
        → Ascending log.events
        → distinct log.events ≡ true
        → verify_audit_chain sha256 dumps log.events log.archived_through_hash ≡ true
        → Ascending (archive_audit batch now plan log).events
          × (verify_audit_chain sha256 dumps
                (archive_audit batch now plan log).events
                (archive_audit batch now plan log).archived_through_hash
              ≡ true)
    unfolding archive_audit
    archive_audit_verifies batch now plan log up apart h =
        let (rest, split) = old_prefix batch (cutoff_of now plan) log.events up in
        let items =
          limit batch
            (select (λ (e : AuditEvent Data). ltb (time_of e) (cutoff_of now plan)) log.events) in
        let old =
          ap
            (λ es.
              limit batch
                (select (λ (e : AuditEvent Data). ltb (time_of e) (cutoff_of now plan)) es))
            (sort-Ascending log.events up) in
        subst
          (λ xs.
            IsVerified (archive_events xs log).events (archive_events xs log).archived_through_hash)
          (sym old) (archived-Verified log items rest split apart (up, h))
