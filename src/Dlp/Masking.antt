-- ===== src/Dlp/Masking.antt =====
-- Nothing stays under a secret key: `scan_and_redact` of
-- packages/shared-types/agentguard_shared/__init__.py.
use aiagentguard.Json.{
  Value, null, bool, num, str, list, dict, Items, nil, cons, Fields, end, field,
}
use aiagentguard.Dlp.{
  Expressions, Scan, Place, mask, visit, visit_fields, visit_items, visit_text, scan, report,
  at_key, at_index, root, fresh_scan,
}
use aiagentguard.Prelude.{ℕ, ◌+◌, ◌≡◌, refl, Bool, true, false, not, ◌&&◌, ◌||◌, str_eq, arith}

abbrev is_mask : {N : Type 0} → Value N → Bool
is_mask (str text) = str_eq text mask
is_mask _ = false

module _ {N : Type 0} (expressions : Expressions) where
  unfoldable mutual
    pub all_masked : Value N → Bool
    all_masked (dict fs) = fields_masked fs
    all_masked (list xs) = items_masked xs
    all_masked null = true
    all_masked (bool b) = true
    all_masked (num n) = true
    all_masked (str text) = true

    pub fields_masked : Fields N → Bool
    fields_masked end = true
    fields_masked (field key v rest) =
        (not (expressions.secret_key key) || is_mask v) && (all_masked v && fields_masked rest)

    pub items_masked : Items N → Bool
    items_masked nil = true
    items_masked (cons v rest) = all_masked v && items_masked rest

  mutual
    unfolding visit visit_fields visit_items visit_text all_masked fields_masked items_masked

    visit_masked :
        (v : Value N) (place : Place) (depth : ℕ) (s : Scan)
        → all_masked (visit expressions v place depth s).0 ≡ true
    visit_masked (dict fs) place depth s =
        ground (arith, visit_fields_masked fs place depth (record s { nodes = s.nodes + 1 }))
    visit_masked (list xs) place depth s =
        ground (arith, visit_items_masked xs 0 place depth (record s { nodes = s.nodes + 1 }))
    visit_masked (str text) place depth s = ground arith
    visit_masked null place depth s = ground arith
    visit_masked (bool b) place depth s = ground arith
    visit_masked (num n) place depth s = ground arith

    visit_fields_masked :
        (fs : Fields N) (place : Place) (depth : ℕ) (s : Scan)
        → fields_masked (visit_fields expressions fs place depth s).0 ≡ true
    visit_fields_masked end place depth s = refl
    visit_fields_masked (field key child rest) place depth s =
        let here = at_key place key in
        let seen = (visit expressions child here (depth + 1) s).1 in
        ground (
          arith,
          visit_masked child here (depth + 1) s,
          visit_fields_masked rest place depth seen,
          visit_fields_masked rest place depth (report "secret_field" here s),
        )

    visit_items_masked :
        (xs : Items N) (index : ℕ) (place : Place) (depth : ℕ) (s : Scan)
        → items_masked (visit_items expressions xs index place depth s).0 ≡ true
    visit_items_masked nil index place depth s = refl
    visit_items_masked (cons child rest) index place depth s =
        let here = at_index place index in
        let seen = (visit expressions child here (depth + 1) s).1 in
        ground (
          arith,
          visit_masked child here (depth + 1) s,
          visit_items_masked rest (index + 1) place depth seen,
        )

  -- Whatever is scanned and whatever the expressions are, in the result each value under a secret
  -- key, at any depth, is the mask.
  pub scan_masked : (value : Value N) → all_masked (scan expressions value).0 ≡ true
  unfolding scan
  scan_masked value = visit_masked value root 0 fresh_scan
