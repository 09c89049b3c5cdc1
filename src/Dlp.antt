-- ===== src/Dlp.antt =====
-- Data loss prevention: packages/shared-types/agentguard_shared/__init__.py. The regular expressions
-- are a parameter: which keys are secret, what `re.sub` makes of a text with the number of its
-- matches, and how the card expression cuts a text into what it matches and what lies between.
pub mod Custom
pub mod Luhn
pub mod Masking
pub mod Reports
mod Examples
use Prim.Native.String.{count as text_length, ◌++◌ as str_append, ◌∷◌ as str_cons}
use Prim.Native.Char.{code}
use aiagentguard.Json.{
  Value, null, bool, num, str, list, dict, Items, nil, cons, Fields, end, field, get, count,
}
use aiagentguard.Prelude.{
  ℕ, ◌+◌, ◌-◌, ◌*◌, ◌%◌, String, Bool, true, false, not, ◌&&◌, ◌||◌, Option, none, some, List, [],
  ◌∷◌, ◌++◌, length, map, all, any, ltb, leb, ◌==◌, if◌then◌else◌, str_eq, codes,
}
use Luhn.{luhn_digits}

abbrev pub mask : String
mask = "[REDACTED]"

-- A piece of a text: one that the card expression matches, or one that it does not.
pub data Piece : Type 0 where
  matched plain : String → Piece

-- A named expression with `re.sub(…, text)`: how often it matched and the text with the masks.
pub record Pattern : Type 0 where
  pub kind : String
  pub sub : String → ℕ × String

pub record Expressions : Type 0 where
  pub secret_key : String → Bool
  pub patterns : List Pattern
  pub cards : String → List Piece

-- `$`, `{path}.{key}` and `{path}[{index}]`.
pub data Place : Type 0 where
  root : Place
  at_key : Place → String → Place
  at_index : Place → ℕ → Place

pub record Finding : Type 0 where
  pub kind : String
  pub place : Place

pub record Scan : Type 0 where
  pub nodes : ℕ
  pub findings : List Finding
  pub secret_found : Bool

-- `finding(kind, path)`.
abbrev pub report : String → Place → Scan → Scan
report kind place s = record s {
  findings = s.findings ++ (record { kind = kind; place = place } ∷ []);
  secret_found = s.secret_found || not (str_eq kind "email" || str_eq kind "phone");
}

abbrev pub report_times : ℕ → String → Place → Scan → Scan
report_times Prim.Native.Nat.zero kind place s = s
report_times (Prim.Native.Nat.suc n) kind place s = report_times n kind place (report kind place s)

-- The digits of a text; those outside ASCII are left out.
abbrev pub digits_of : String → List ℕ
digits_of String.[] = []
digits_of (String.◌∷◌ c s) =
    let rest = digits_of s in
    if leb 48 (code c) && leb (code c) 57 then (code c - 48) ∷ rest else rest

unfoldable pub luhn : String → Bool
luhn text = luhn_digits (digits_of text)

unfoldable pub apply_patterns : List Pattern → Place → String → Scan → String × Scan
apply_patterns [] place text s = (text, s)
apply_patterns (p ∷ ps) place text s =
    let (times, text') = p.sub text in
    apply_patterns ps place text' (report_times times p.kind place s)

-- `CARD.sub(card_replace, item)`.
unfoldable pub mask_cards : List Piece → Place → Scan → String × Scan
mask_cards [] place s = ("", s)
mask_cards (plain text ∷ rest) place s =
    let (tail, s') = mask_cards rest place s in (str_append text tail, s')
mask_cards (matched text ∷ rest) place s =
    let hit = mask_cards rest place (report "credit_card" place s) in
    let miss = mask_cards rest place s in
    if luhn text then (str_append mask hit.0, hit.1) else (str_append text miss.0, miss.1)

abbrev pub entered : Scan → Scan
entered s = record s { nodes = s.nodes + 1 }

abbrev pub over_limit : ℕ → Scan → Bool
over_limit depth s = ltb 32 depth || ltb 10000 s.nodes

abbrev pub fresh_scan : Scan
fresh_scan = record { nodes = 0; findings = []; secret_found = false }

module _ {N : Type 0} (expressions : Expressions) where
  unfoldable pub visit_text : String → Place → Scan → Value N × Scan
  visit_text text place s =
      let (text', s') = apply_patterns expressions.patterns place text s in
      let (text'', s'') = mask_cards (expressions.cards text') place s' in
      if ltb 1048576 (text_length text)
      then (str mask, report "payload_limit" place s)
      else (str text'', s'')

  unfoldable mutual
    pub visit : Value N → Place → ℕ → Scan → Value N × Scan
    visit (dict fs) place depth s =
        let s' = entered s in
        let (fs', after) = visit_fields fs place depth s' in
        if over_limit depth s'
        then (str mask, report "payload_limit" place s')
        else (dict fs', after)
    visit (list xs) place depth s =
        let s' = entered s in
        let (xs', after) = visit_items xs 0 place depth s' in
        if over_limit depth s'
        then (str mask, report "payload_limit" place s')
        else (list xs', after)
    visit (str text) place depth s =
        let s' = entered s in
        if over_limit depth s'
        then (str mask, report "payload_limit" place s')
        else visit_text text place s'
    visit null place depth s =
        let s' = entered s in
        if over_limit depth s' then (str mask, report "payload_limit" place s') else (null, s')
    visit (bool b) place depth s =
        let s' = entered s in
        if over_limit depth s' then (str mask, report "payload_limit" place s') else (bool b, s')
    visit (num n) place depth s =
        let s' = entered s in
        if over_limit depth s' then (str mask, report "payload_limit" place s') else (num n, s')

    pub visit_fields : Fields N → Place → ℕ → Scan → Fields N × Scan
    visit_fields end place depth s = (end, s)
    visit_fields (field key child rest) place depth s =
        let here = at_key place key in
        let (child', seen) = visit child here (depth + 1) s in
        let (rest', after) = visit_fields rest place depth seen in
        let (masked_rest, masked_after) =
          visit_fields rest place depth (report "secret_field" here s) in
        if expressions.secret_key key
        then (field key (str mask) masked_rest, masked_after)
        else (field key child' rest', after)

    pub visit_items : Items N → ℕ → Place → ℕ → Scan → Items N × Scan
    visit_items nil index place depth s = (nil, s)
    visit_items (cons child rest) index place depth s =
        let (child', seen) = visit child (at_index place index) (depth + 1) s in
        let (rest', after) = visit_items rest (index + 1) place depth seen in
        (cons child' rest', after)

  unfoldable pub scan : Value N → Value N × Scan
  scan value = visit value root 0 fresh_scan
