-- ===== src/Policy/Examples.antt =====
-- The refund policy of tests/unit/test_engines.py, and the theorems on policies at it. Numbers are
-- naturals here.
use aiagentguard.Json.{
  Numbers, Value, num, str, list, dict, nil, cons, Fields, end, field, get, py_eq, size, keys,
  count, dumps_ok,
}
use aiagentguard.Policy.Errors.{Result, ok, err}
use aiagentguard.Policy.Keys.{key_op, valid_path, split_dots}
use aiagentguard.Policy.Conditions.{
  decimal, validate_condition, validate_when, get_fact, test_op, test_condition, when,
}
use aiagentguard.Policy.Documents.{
  Action, Loaded, yaml_error, allow, deny, require_approval, check_scope, check_rules, check_rule,
  check_rule_list, check_policy, load as load_document, validate_policy, parse_policy, action_of,
  get_or,
}
use aiagentguard.Policy.Evaluation.{
  Decision, default_decision, rank, precedes, winner, find_rule, find_rules, priority_of,
  find_in_document, find_in_policy, find_all, add_rule, evaluate,
}
use aiagentguard.Policy.Totality.{evaluate_total}
use aiagentguard.Policy.Sources.{Applies}
use aiagentguard.Policy.Verdict.{decision_is_earned}
use aiagentguard.Prelude.{
  ℕ, String, ◌≡◌, refl, true, Option, none, some, [], ltb, ◌==◌, ◌≤◌, ◌⊎◌, if◌then◌else◌, str_eq,
}
use aiagentguard.Prelude.Int.{ℤ, ltb_ℤ, pos}

-- Only three numbers are written as texts.
abbrev text_of : ℕ → String
text_of n = if n == 500 then "500" else if n == 5000 then "5000" else "10"

abbrev parse_text : String → Option ℕ
parse_text s =
    if str_eq s "500"
    then some 500
    else if str_eq s "5000"
    then some 5000
    else if str_eq s "10"
    then some 10
    else if str_eq s "501"
    then some 501
    else none

abbrev naturals : Numbers
naturals = record {
  Number = ℕ;
  num_eq = ◌==◌;
  of_bool = λ b. if b then 1 else 0;
  text = text_of;
  as_int = λ n. some (pos n);
  num_finite = λ n. true;
  Decimal = ℕ;
  parse = parse_text;
  is_finite = λ d. true;
  dec_ltb = ltb;
  dec_eqb = ◌==◌;
}

abbrev V : Type 0
V = Value ℕ

abbrev rule : String → V → V
rule action conditions = dict (field "when" conditions (field "action" (str action) end))

abbrev refund : V
refund = dict (
    field "id" (str "refund") (
      field "priority" (num 10) (
        field "document"
          (dict (
            field "name" (str "refund") (
              field "subject" (dict (field "agent" (str "refund-agent") end)) (
                field "rules"
                  (list (
                    cons (rule "allow" (dict (field "amount_lte" (num 500) end))) (
                      cons
                        (rule "require_approval"
                          (dict (field "amount_gt" (num 500) (field "amount_lte" (num 5000) end))))
                        (cons (rule "deny" (dict (field "amount_gt" (num 5000) end))) nil))))
                  end))))
          end)))

abbrev facts : String → Fields ℕ
facts amount = field "agent" (str "refund-agent") (field "amount" (str amount) end)

abbrev yaml_reader : String → Loaded ℕ
yaml_reader text = yaml_error

abbrev decision_at : String → Result Action
decision_at amount =
    elim (evaluate naturals yaml_reader (λ v. "") (list (cons refund nil)) (dict (facts amount))) [
      | ok d ↦ ok d.decision
      | err e ↦ err e
    ]

at_500 : decision_at "500" ≡ ok allow
unfolding evaluate find_all find_in_policy find_in_document find_rules find_rule priority_of
    parse_policy load_document validate_policy check_policy check_scope check_rules check_rule
    check_rule_list validate_when validate_condition key_op valid_path decimal dumps_ok get_fact
    split_dots test_condition test_op when winner precedes action_of get_or py_eq keys count size
    get add_rule
at_500 = refl

at_501 : decision_at "501" ≡ ok require_approval
unfolding evaluate find_all find_in_policy find_in_document find_rules find_rule priority_of
    parse_policy load_document validate_policy check_policy check_scope check_rules check_rule
    check_rule_list validate_when validate_condition key_op valid_path decimal dumps_ok get_fact
    split_dots test_condition test_op when winner precedes action_of get_or py_eq keys count size
    get add_rule
at_501 = refl

not_a_number : decision_at "NaN" ≡ ok deny
unfolding evaluate find_all find_in_policy find_in_document find_rules find_rule priority_of
    parse_policy load_document validate_policy check_policy check_scope check_rules check_rule
    check_rule_list validate_when validate_condition key_op valid_path decimal dumps_ok get_fact
    split_dots test_condition test_op when winner precedes action_of get_or py_eq keys count size
    get add_rule
not_a_number = refl

abbrev show : V → String
show v = ""

evaluate_total_example :
    (d : Decision ℕ) × (evaluate naturals yaml_reader show
        (list (cons refund (cons (str "not a policy") nil)))
        (dict (facts "500"))
      ≡ ok d)
unfolding get_or get
evaluate_total_example =
    evaluate_total naturals yaml_reader show (list (cons refund (cons (str "not a policy") nil)))
      (dict (facts "500")) (tt, (tt, tt))

abbrev decided : Result (Decision ℕ) → Decision ℕ
decided (ok d) = d
decided (err e) = default_decision "" []

abbrev decision_500 : Decision ℕ
decision_500 =
    decided (evaluate naturals yaml_reader show (list (cons refund nil)) (dict (facts "500")))

decision_is_earned_example :
    (p : ℤ) × Applies naturals yaml_reader show (cons refund nil) (facts "500") p allow
    × ((q : ℤ) (action : Action)
        → Applies naturals yaml_reader show (cons refund nil) (facts "500") q action
        → (ltb_ℤ q p ≡ true) ⊎ ((q ≡ p) × (rank action ≤ rank allow)))
unfolding evaluate find_all find_in_policy find_in_document find_rules find_rule priority_of
    parse_policy load_document validate_policy check_policy check_scope check_rules check_rule
    check_rule_list validate_when validate_condition key_op valid_path decimal dumps_ok get_fact
    split_dots test_condition test_op when winner precedes action_of get_or py_eq keys count size
    get add_rule
decision_is_earned_example =
    decision_is_earned naturals yaml_reader show (cons refund nil) (facts "500") {d = decision_500}
      refl (λ e. cc)
