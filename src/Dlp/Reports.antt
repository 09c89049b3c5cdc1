-- ===== src/Dlp/Reports.antt =====
-- What is changed is reported: `scan_and_redact` of
-- packages/shared-types/agentguard_shared/__init__.py.
use Prim.Native.String.{◌++◌ as str_append, count as text_length}
use Prim.Native.Nat.{zero, suc}
use aiagentguard.Json.{
  Value, null, bool, num, str, list, dict, Items, nil, cons, Fields, end, field,
}
use aiagentguard.Dlp.{
  Expressions, Pattern, Piece, matched, plain, Scan, Place, at_key, at_index, root, fresh_scan,
  entered, over_limit, report, report_times, mask, luhn, apply_patterns, mask_cards, visit,
  visit_fields, visit_items, visit_text, scan,
}
use aiagentguard.Prelude.{
  ℕ, ◌+◌, ◌≤◌, String, ◌≡◌, refl, ap, ◌∙◌, List, [], ◌∷◌, All, length, length-append, if◌then◌else◌,
  ltb, arith, Bool-cases, inl, inr,
}

abbrev text_of : Piece → String
text_of (matched text) = text
text_of (plain text) = text

abbrev pub joined : List Piece → String
joined [] = ""
joined (p ∷ ps) = str_append (text_of p) (joined ps)

-- `re.sub` gives the text back where nothing matches.
abbrev pub IsQuiet : Pattern → Type 0
IsQuiet p = (text : String) → (p.sub text).0 ≡ 0 → (p.sub text).1 ≡ text

-- The card expression cuts a text into pieces that make the text up.
abbrev pub IsCut : Expressions → Type 0
IsCut expressions = (text : String) → joined (expressions.cards text) ≡ text

abbrev many : Scan → ℕ
many s = length s.findings

report-many : (kind : String) (place : Place) (s : Scan) → many (report kind place s) ≡ many s + 1
report-many kind place s =
    omega (arith, length-append s.findings (record { kind = kind; place = place } ∷ []))

report_times-many :
    (n : ℕ) (kind : String) (place : Place) (s : Scan)
    → many (report_times n kind place s) ≡ many s + n
report_times-many zero kind place s = omega arith
report_times-many (suc n) kind place s =
    omega (arith, report_times-many n kind place (report kind place s), report-many kind place s)

-- The findings do not become fewer; and if they do not become more, the value is the same.
abbrev Keeps : {A : Type 0} → A → Scan → A × Scan → Type 0
Keeps a s (a', s') = (many s ≤ many s') × (many s' ≤ many s → a' ≡ a)

apply_patterns-Keeps :
    (ps : List Pattern) (place : Place) (text : String) (s : Scan)
    → All IsQuiet ps
    → Keeps text s (apply_patterns ps place text s)
unfolding apply_patterns
apply_patterns-Keeps [] place text s quiet = (omega arith, λ h. refl)
apply_patterns-Keeps (p ∷ ps) place text s quiet =
    let (times, text') = p.sub text in
    let (grows, same) =
      apply_patterns-Keeps ps place text' (report_times times p.kind place s) quiet.1 in
    let more = report_times-many times p.kind place s in
    (
      omega (arith, grows, more),
      λ h. same (omega (arith, more)) ∙ quiet.0 text (omega (arith, grows, more)),
    )

mask_cards-Keeps :
    (ps : List Piece) (place : Place) (s : Scan) → Keeps (joined ps) s (mask_cards ps place s)
unfolding mask_cards
mask_cards-Keeps [] place s = (omega arith, λ h. refl)
mask_cards-Keeps (plain text ∷ ps) place s =
    let (grows, same) = mask_cards-Keeps ps place s in (grows, λ h. ap (str_append text) (same h))
mask_cards-Keeps (matched text ∷ ps) place s =
    let (grows, same) = mask_cards-Keeps ps place s in
    let (grows', same') = mask_cards-Keeps ps place (report "credit_card" place s) in
    let more = report-many "credit_card" place s in
    elim (Bool-cases (luhn text)) [
      | inl hit ↦ rw hit (omega (arith, grows', more), λ h. absurd (omega (arith, grows', more)))
      | inr miss ↦ rw miss (grows, λ h. ap (str_append text) (same h))
    ]

module _ {N : Type 0} (expressions : Expressions) (quiet : All IsQuiet expressions.patterns)
    (cut : IsCut expressions) where
  stopped-Keeps :
      (v : Value N) (place : Place) (s : Scan)
      → Keeps v s (str mask, report "payload_limit" place s)
  stopped-Keeps v place s =
      let more = report-many "payload_limit" place s in
      (omega (arith, more), λ h. absurd (omega (arith, more)))

  visit_text-Keeps :
      (text : String) (place : Place) (s : Scan)
      → Keeps {A = Value N} (str text) s (visit_text expressions text place s)
  unfolding visit_text
  visit_text-Keeps text place s =
      let (text', s') = apply_patterns expressions.patterns place text s in
      let (grows, same) = apply_patterns-Keeps expressions.patterns place text s quiet in
      let (grows', same') = mask_cards-Keeps (expressions.cards text') place s' in
      elim (Bool-cases (ltb 1048576 (text_length text))) [
        | inl long ↦ rw long (stopped-Keeps (str text) place s)
        | inr fits ↦ rw fits (
          omega (arith, grows, grows'),
          λ h. ap str (
              same' (omega (arith, grows, grows'))
              ∙ (cut text' ∙ same (omega (arith, grows, grows')))),
        )
      ]

  -- A visit that goes on, or stops at the limit.
  guarded-Keeps :
      (v : Value N) (place : Place) (depth : ℕ) (s : Scan) (result : Value N × Scan)
      → Keeps v s result
      → Keeps v s
          (if over_limit depth s then (str mask, report "payload_limit" place s) else result)
  guarded-Keeps v place depth s result h = elim (Bool-cases (over_limit depth s)) [
    | inl stops ↦ rw stops (stopped-Keeps v place s)
    | inr goes ↦ rw goes h
  ]

  mutual
    unfolding visit visit_fields visit_items

    visit-Keeps :
        (v : Value N) (place : Place) (depth : ℕ) (s : Scan)
        → Keeps v s (visit expressions v place depth s)
    visit-Keeps (dict fs) place depth s =
        let (grows, same) = visit_fields-Keeps fs place depth (entered s) in
        guarded-Keeps (dict fs) place depth (entered s) _ (grows, λ h. ap dict (same h))
    visit-Keeps (list xs) place depth s =
        let (grows, same) = visit_items-Keeps xs 0 place depth (entered s) in
        guarded-Keeps (list xs) place depth (entered s) _ (grows, λ h. ap list (same h))
    visit-Keeps (str text) place depth s =
        guarded-Keeps (str text) place depth (entered s) _ (visit_text-Keeps text place (entered s))
    visit-Keeps null place depth s =
        guarded-Keeps null place depth (entered s) _ (omega arith, λ h. refl)
    visit-Keeps (bool b) place depth s =
        guarded-Keeps (bool b) place depth (entered s) _ (omega arith, λ h. refl)
    visit-Keeps (num n) place depth s =
        guarded-Keeps (num n) place depth (entered s) _ (omega arith, λ h. refl)

    visit_fields-Keeps :
        (fs : Fields N) (place : Place) (depth : ℕ) (s : Scan)
        → Keeps fs s (visit_fields expressions fs place depth s)
    visit_fields-Keeps end place depth s = (omega arith, λ h. refl)
    visit_fields-Keeps (field key child rest) place depth s =
        let here = at_key place key in
        let (grows, same) = visit-Keeps child here (depth + 1) s in
        let (grows', same') =
          visit_fields-Keeps rest place depth (visit expressions child here (depth + 1) s).1 in
        let (grows'', same'') =
          visit_fields-Keeps rest place depth (report "secret_field" here s) in
        let more = report-many "secret_field" here s in
        elim (Bool-cases (expressions.secret_key key)) [
          | inl secret ↦
              rw secret (omega (arith, grows'', more), λ h. absurd (omega (arith, grows'', more)))
          | inr open_key ↦ rw open_key (
            omega (arith, grows, grows'),
            λ h.
                ap
                  (λ v.
                    field key v
                      (visit_fields expressions rest place depth
                        (visit expressions child here (depth + 1) s).1).0)
                  (same (omega (arith, grows, grows')))
                ∙ ap (field key child) (same' (omega (arith, grows, grows'))),
          )
        ]

    visit_items-Keeps :
        (xs : Items N) (index : ℕ) (place : Place) (depth : ℕ) (s : Scan)
        → Keeps xs s (visit_items expressions xs index place depth s)
    visit_items-Keeps nil index place depth s = (omega arith, λ h. refl)
    visit_items-Keeps (cons child rest) index place depth s =
        let here = at_index place index in
        let (grows, same) = visit-Keeps child here (depth + 1) s in
        let (grows', same') =
          visit_items-Keeps rest (index + 1) place depth
            (visit expressions child here (depth + 1) s).1 in
        (
          omega (arith, grows, grows'),
          λ h.
              ap
                (λ v.
                  cons v
                    (visit_items expressions rest (index + 1) place depth
                      (visit expressions child here (depth + 1) s).1).0)
                (same (omega (arith, grows, grows')))
              ∙ ap (cons child) (same' (omega (arith, grows, grows'))),
        )

  -- Where an expression that does not match gives its text back, and the card expression cuts a
  -- text into what makes it up, a scan without findings gives back the value that it was given.
  pub scan_quiet :
      (value : Value N)
      → (scan expressions value).1.findings ≡ []
      → (scan expressions value).0 ≡ value
  unfolding scan
  scan_quiet value h = (visit-Keeps value root 0 fresh_scan).1 (omega (arith, ap length h))
