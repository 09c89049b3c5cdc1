-- ===== src/Sdk/Examples.antt =====
-- A server that asks for an approval, which the third question finds given, and a function that
-- returns a text.
use aiagentguard.Json.{Numbers, Value, num, str, dict, Fields, end, field, get}
use aiagentguard.Sdk.{
  Http, data_of, Route, authorize_path, status_path, claim_path, Result, done, World, State, bind,
  member, set, claim_of, frozen_call, attempt, post, state_of, poll, call_and_report, claimed_call,
  wait, protect,
}
use aiagentguard.Sdk.Wait.{returns, protect_ends}
use aiagentguard.Sdk.Guard.{After, IsGuarded, protect-Guarded}
use aiagentguard.Prelude.{
  ℕ, suc, String, ◌≡◌, refl, true, Option, none, some, List, [], ◌∷◌, ltb, ◌==◌, if◌then◌else◌,
  arith,
}
use aiagentguard.Prelude.Int.{pos}

abbrev naturals : Numbers
naturals = record {
  Number = ℕ;
  num_eq = ◌==◌;
  of_bool = λ b. if b then 1 else 0;
  text = λ n. "";
  as_int = λ n. some (pos n);
  num_finite = λ n. true;
  Decimal = ℕ;
  parse = λ s. none;
  is_finite = λ d. true;
  dec_ltb = ltb;
  dec_eqb = ◌==◌;
}

abbrev respond : Route ℕ → ℕ → Http ℕ
respond authorize_path now =
    data_of (field "decision" (str "require_approval") (field "request_id" (str "r1") end))
respond (status_path id) now =
    data_of (field "status" (str (if ltb now 2 then "pending_approval" else "approved")) end)
respond (claim_path id) now =
    data_of
      (field "claim_token" (str "t1") (field "arguments" (dict (field "amount" (num 20) end)) end))
respond route now = data_of end

abbrev world : World ℕ ℕ
world = record {
  send = λ route now. (respond route now, now);
  clock = λ now. now;
  sleep = suc;
  function = λ arguments now. (some (str "refunded"), now);
}

abbrev parameters : List String
parameters = "amount" ∷ "note" ∷ []

abbrev bound : Fields ℕ
bound = field "amount" (num 30) (field "note" (str "late") end)

abbrev start : State ℕ ℕ
start = record { net = 0; log = [] }

-- What a call gives its caller.
abbrev result_of : Option (Result (Value ℕ) × State ℕ ℕ) → Option (Result (Value ℕ))
result_of none = none
result_of (some (result, s)) = some result

refunded :
    result_of (protect naturals world 5 4 parameters bound start) ≡ some (done (str "refunded"))
unfolding protect bind post attempt wait member get poll state_of claimed_call claim_of frozen_call
    set call_and_report
refunded = refl

protect_ends_example : returns (protect naturals world 5 4 parameters bound start) ≡ true
protect_ends_example =
    protect_ends naturals world (λ n. omega arith) (λ route n. omega arith) 4 parameters bound start

protect-Guarded_example :
    After parameters bound
      (λ v log. IsGuarded parameters bound log)
      (protect naturals world 5 4 parameters bound (record { net = 0; log = [] }))
protect-Guarded_example = protect-Guarded naturals parameters bound world 5 4 0
