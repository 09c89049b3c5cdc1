-- ===== src/Sdk/Wait.antt =====
-- The SDK stops waiting: a clock that a sleep moves on and that no request turns back.
use aiagentguard.Json.{Numbers, Value, Fields, get}
use aiagentguard.Sdk.{
  Route, authorize_path, claim_path, status_path, done, failed, World, State, Run, bind, or_value,
  attempt, post, slept, poll, wait, claim_of, frozen_call, call_and_report, claimed_call,
  request_id_of, protect,
}
use aiagentguard.Prelude.{
  ℕ, zero, suc, ◌+◌, ◌≤◌, ◌<◌, String, Bool, true, false, Option, none, some, List, ◌≡◌, refl,
  arith,
}

abbrev pub returns {ℓ} : {A : Type ℓ} → Option A → Bool
returns none = false
returns (some a) = true

module _ {N Net : Type 0} (world : World N Net) where
  abbrev pub Advances : Type 0
  Advances = (n : Net) → world.clock n < world.clock (world.sleep n)

  abbrev pub NeverBack : Type 0
  NeverBack = (route : Route N) (n : Net) → world.clock n ≤ world.clock (world.send route n).1

  returns-bind :
      {A B : Type 0} (r : Run N Net A) (next : A → State N Net → Run N Net B)
      → returns r ≡ true
      → ((a : A) (s : State N Net) → returns (next a s) ≡ true)
      → returns (bind r next) ≡ true
  unfolding bind
  returns-bind none next h k = h
  returns-bind (some (failed why, s)) next h k = refl
  returns-bind (some (done a, s)) next h k = k a s

  poll_ends :
      Advances
      → NeverBack
      → (fuel deadline : ℕ) (id : Value N) (s : State N Net) → deadline ≤ world.clock s.net + fuel
      → returns (poll world (suc fuel) deadline id s) ≡ true
  unfolding poll attempt
  poll_ends up back zero deadline id s h = ground arith
  poll_ends up back (suc fuel) deadline id s h =
      let s' = (attempt world (status_path id) s).1 in
      let later =
        poll_ends up back fuel deadline id (slept world s')
          (omega (arith, h, up s'.net, back (status_path id) s.net)) in
      ground arith

  call_and_report_ends :
      (id : Value N) (token : String) (arguments : Fields N) (s : State N Net)
      → returns (call_and_report world id token arguments s) ≡ true
  unfolding call_and_report
  call_and_report_ends id token arguments s = ground arith

  claimed_call_ends :
      (parameters : List String) (bound : Fields N) (id : Value N) (reply : Fields N)
      (s : State N Net)
      → returns (claimed_call world parameters bound id reply s) ≡ true
  unfolding claimed_call
  claimed_call_ends parameters bound id reply s =
      returns-bind (some (claim_of reply, s))
        (λ claim t.
          bind (some (frozen_call parameters bound claim.1, t))
            (λ arguments u. call_and_report world id claim.0 arguments u))
        refl
        (λ claim t.
          returns-bind (some (frozen_call parameters bound claim.1, t))
            (λ arguments u. call_and_report world id claim.0 arguments u) refl
            (λ arguments u. call_and_report_ends id claim.0 arguments u))

module _ (numbers : Numbers) {Net : Type 0} (world : World numbers.Number Net) where
  open numbers use {Number}

  wait_ends :
      Advances world
      → NeverBack world
      → (approval_time : ℕ) (response : Fields Number) (s : State Number Net)
      → returns (wait numbers world (suc approval_time) approval_time response s) ≡ true
  unfolding wait
  wait_ends up back approval_time response s = ground (
    arith,
    poll_ends world up back approval_time (world.clock s.net + approval_time)
        (or_value (get "request_id" response)) s (omega arith),
  )

  -- Where a sleep moves the clock on and no request turns it back, a protected call returns or raises:
  -- one turn more than the units of the approval's time is enough fuel.
  pub protect_ends :
      Advances world
      → NeverBack world
      → (approval_time : ℕ) (parameters : List String) (bound : Fields Number)
        (s : State Number Net)
      → returns (protect numbers world (suc approval_time) approval_time parameters bound s) ≡ true
  unfolding protect
  protect_ends up back approval_time parameters bound s =
      returns-bind world (some (post world true authorize_path s))
        (λ response t.
          bind (wait numbers world (suc approval_time) approval_time response t) (claimed response))
        refl
        (λ response t.
          returns-bind world (wait numbers world (suc approval_time) approval_time response t)
            (claimed response) (wait_ends up back approval_time response t)
            (λ state u.
              returns-bind world (some (post world false (claim_path (id_of response state)) u))
                (λ reply v. claimed_call world parameters bound (id_of response state) reply v) refl
                (λ reply v.
                  claimed_call_ends world parameters bound (id_of response state) reply v)))
    where
      id_of : Fields Number → Fields Number → Value Number
      id_of response state = request_id_of numbers response state

      claimed : Fields Number → Fields Number → State Number Net → Run Number Net (Value Number)
      claimed response state u =
          bind (some (post world false (claim_path (id_of response state)) u))
            (λ reply v. claimed_call world parameters bound (id_of response state) reply v)
