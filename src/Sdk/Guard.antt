-- ===== src/Sdk/Guard.antt =====
-- What `protect` is for: the caller's function runs on what the server froze, after it allowed it.
use aiagentguard.Json.{Numbers, Value, Fields, get, truthy}
use aiagentguard.Sdk.{
  Http, transport_error, type_error, invalid, data_of, Route, authorize_path, status_path,
  claim_path, result_path, Result, done, failed, raised, Event, answered, called, World, State, Run,
  bind, member, is_text, or_value, request_id_of, attempt, may_retry, unwrap, reported, post,
  polled, state_of, slept, poll, wait, claim_of, frozen_call, call_and_report, claimed_call,
  protect,
}
use aiagentguard.Sdk.Frozen.{IsFrozen, frozen_call-IsFrozen, is_approval, done_approval}
use aiagentguard.Prelude.{
  ℕ, zero, suc, ◌+◌, String, Bool, true, false, ◌&&◌, Option, none, some, List, [], ◌∷◌, ◌≡◌, refl,
  sym, subst, inl, inr, ◌⊎◌, Bool-cases, Option-cases, any, ltb, arith,
}

-- An answer that lets the call go on: allowed at once, or an approval.
unfoldable pub is_clearance : {N : Type 0} → Event N → Bool
is_clearance (answered authorize_path (data_of response)) =
    is_text "allow" (get "decision" response)
is_clearance (answered (status_path id) (data_of state)) = is_approval state
is_clearance _ = false

unfoldable pub is_cleared : {N : Type 0} → List (Event N) → Bool
is_cleared log = any is_clearance log

-- The function has not been called.
unfoldable pub is_quiet : {N : Type 0} → List (Event N) → Bool
is_quiet [] = true
is_quiet (called arguments ∷ log) = false
is_quiet (answered route reply ∷ log) = is_quiet log

module _ {N : Type 0} (parameters : List String) (bound : Fields N) where
  -- The event before a call is the answer to a claim that freezes arguments of the call.
  abbrev pub IsClaimed : Fields N → List (Event N) → Type 0
  IsClaimed arguments (answered (claim_path id) (data_of reply) ∷ log) =
      (token : String) × (frozen : Fields N) × (claim_of reply ≡ done (token, frozen))
      × IsFrozen parameters bound frozen arguments
      × (is_cleared log ≡ true)
      × (is_quiet log ≡ true)
  IsClaimed arguments log = ⊥

  abbrev pub IsGuarded : List (Event N) → Type 0
  IsGuarded [] = Unit
  IsGuarded (called arguments ∷ log) = IsClaimed arguments log
  IsGuarded (answered route reply ∷ log) = IsGuarded log

  quiet-Guarded : (log : List (Event N)) → is_quiet log ≡ true → IsGuarded log
  unfolding is_quiet
  quiet-Guarded [] h = tt
  quiet-Guarded (called arguments ∷ log) h = absurd (ground arith)
  quiet-Guarded (answered route reply ∷ log) h = quiet-Guarded log h

  -- A computation that fails leaves a guarded log, and one that is done a log as wanted.
  abbrev pub After : {Net A : Type 0} → (A → List (Event N) → Type 0) → Run N Net A → Type 0
  After P none = Unit
  After P (some (failed why, s)) = IsGuarded s.log
  After P (some (done a, s)) = P a s.log

  after-bind :
      {Net A B : Type 0} (P : A → List (Event N) → Type 0) (P' : B → List (Event N) → Type 0)
      (r : Run N Net A) (next : A → State N Net → Run N Net B)
      → After P r
      → ((a : A) (s : State N Net) → P a s.log → After P' (next a s))
      → After P' (bind r next)
  unfolding bind
  after-bind P P' none next h k = tt
  after-bind P P' (some (failed why, s)) next h k = h
  after-bind P P' (some (done a, s)) next h k = k a s h

  -- What a post that is answered leaves, over the log that it found.
  abbrev IsAnswered : Route N → List (Event N) → Fields N → List (Event N) → Type 0
  IsAnswered route before reply log =
      (rest : List (Event N)) × (log ≡ answered route (data_of reply) ∷ rest)
      × (is_quiet rest ≡ true)
      × (is_cleared before ≡ true → is_cleared rest ≡ true)

  unwrap-After :
      {Net : Type 0} (route : Route N) (before rest : List (Event N)) (reply : Http N) (net : Net)
      → is_quiet rest ≡ true
      → (is_cleared before ≡ true → is_cleared rest ≡ true)
      → After
          (IsAnswered route before)
          (some (unwrap reply, record { net = net; log = answered route reply ∷ rest }))
  unwrap-After route before rest transport_error net quiet clear = quiet-Guarded rest quiet
  unwrap-After route before rest type_error net quiet clear = quiet-Guarded rest quiet
  unwrap-After route before rest invalid net quiet clear = quiet-Guarded rest quiet
  unwrap-After route before rest (data_of reply) net quiet clear = (rest, refl, quiet, clear)

  later_cleared :
      (event : Event N) (log : List (Event N))
      → is_cleared log ≡ true
      → is_cleared (event ∷ log) ≡ true
  unfolding is_cleared
  later_cleared event log h = ground arith

  module _ {Net : Type 0} (world : World N Net) where
    post-After :
        (retry : Bool) (route : Route N) (s : State N Net)
        → is_quiet s.log ≡ true
        → After (IsAnswered route s.log) (some (post world retry route s))
    unfolding post attempt is_quiet
    post-After retry route s quiet =
        let first = (world.send route s.net).0 in
        elim (Bool-cases (retry && may_retry first)) [
          | inl e ↦ rw e (
              unwrap-After route s.log (answered route first ∷ s.log) _ _ quiet
                (later_cleared (answered route first) s.log))
          | inr e ↦ rw e (unwrap-After route s.log s.log first _ quiet (λ c. c))
        ]

    post-Guarded :
        (retry : Bool) (route : Route N) (s : State N Net)
        → IsGuarded s.log
        → IsGuarded (post world retry route s).1.log
    unfolding post attempt
    post-Guarded retry route s h =
        elim (Bool-cases (retry && may_retry (world.send route s.net).0)) [
          | inl e ↦ rw e h
          | inr e ↦ rw e h
        ]

    reported-Guarded :
        (result : Result (Value N)) (r : Result (Fields N)) (s : State N Net)
        → IsGuarded s.log
        → After (λ v log. IsGuarded log) (reported result (r, s))
    reported-Guarded (done v) (done reply) s h = h
    reported-Guarded (failed why) (done reply) s h = h
    reported-Guarded result (failed why) s h = h

    -- What waiting leaves when it ends well.
    abbrev IsReady : Fields N → List (Event N) → Type 0
    IsReady state log = (is_quiet log ≡ true) × (is_cleared log ≡ true)

    call-After :
        (id : Value N) (token : String) (arguments : Fields N) (s : State N Net)
        → IsClaimed arguments s.log
        → After (λ v log. IsGuarded log) (call_and_report world id token arguments s)
    unfolding call_and_report
    call-After id token arguments s h =
        let (result, net) = world.function arguments s.net in
        let after : State N Net = record { net = net; log = called arguments ∷ s.log } in
        elim (Option-cases result) [
          | inl e ↦
              rw (After, e)
                (reported-Guarded (failed raised)
                  (post world false (result_path id token false) after).0
                  (post world false (result_path id token false) after).1
                  (post-Guarded false (result_path id token false) after h))
          | inr (v, e) ↦
              rw (After, e)
                (reported-Guarded (done v) (post world false (result_path id token true) after).0
                  (post world false (result_path id token true) after).1
                  (post-Guarded false (result_path id token true) after h))
        ]

    claim-After :
        (id : Value N) (reply : Fields N) (s : State N Net) (rest : List (Event N))
        → s.log ≡ answered (claim_path id) (data_of reply) ∷ rest
        → is_quiet rest ≡ true
        → is_cleared rest ≡ true
        → After (λ v log. IsGuarded log) (claimed_call world parameters bound id reply s)
    unfolding claimed_call
    claim-After id reply s rest here quiet clear =
        after-bind
          (λ claim log.
            (log ≡ answered (claim_path id) (data_of reply) ∷ rest) × (claim_of reply ≡ done claim))
          (λ v log. IsGuarded log) (some (claim_of reply, s)) _ (claims (claim_of reply) refl)
          (λ claim t (where_it_is, token).
            after-bind
              (λ arguments log.
                (log ≡ answered (claim_path id) (data_of reply) ∷ rest)
                × (frozen_call parameters bound claim.1 ≡ done arguments))
              (λ v log. IsGuarded log) (some (frozen_call parameters bound claim.1, t)) _
              (freezes (frozen_call parameters bound claim.1) t where_it_is refl)
              (λ arguments u (still, frozen). call-After id claim.0 arguments u (
                subst (IsClaimed arguments) (sym still) (
                  claim.0,
                  claim.1,
                  token,
                  frozen_call-IsFrozen parameters bound claim.1 frozen,
                  clear,
                  quiet,
                ))))
      where
        quietly :
            (log : List (Event N))
            → log ≡ answered (claim_path id) (data_of reply) ∷ rest
            → IsGuarded log
        quietly log e = subst IsGuarded (sym e) (quiet-Guarded rest quiet)

        claims :
            (r : Result (String × Fields N))
            → claim_of reply ≡ r
            → After
                (λ claim log.
                  (log ≡ answered (claim_path id) (data_of reply) ∷ rest)
                  × (claim_of reply ≡ done claim))
                (some (r, s))
        claims (done claim) e = (here, e)
        claims (failed why) e = quietly s.log here

        freezes :
            {x : Result (Fields N)} (r : Result (Fields N)) (t : State N Net)
            → t.log ≡ answered (claim_path id) (data_of reply) ∷ rest
            → x ≡ r
            → After
                (λ arguments log.
                  (log ≡ answered (claim_path id) (data_of reply) ∷ rest) × (x ≡ done arguments))
                (some (r, t))
        freezes (done arguments) t l e = (l, e)
        freezes (failed why) t l e = quietly t.log l

    answered_state :
        (id : Value N) (state : Fields N) (log : List (Event N)) (net : Net)
        (later : Run N Net (Fields N)) (o : Option (Result (Fields N)))
        → is_quiet log ≡ true
        → After IsReady later
        → state_of state ≡ o
        → After IsReady (elim o [
          | none ↦ later
          | some r ↦
              some (r, record { net = net; log = answered (status_path id) (data_of state) ∷ log })
        ])
    unfolding is_quiet is_cleared is_clearance
    answered_state id state log net later none quiet h e = h
    answered_state id state log net later (some (failed why)) quiet h e = quiet-Guarded log quiet
    answered_state id state log net later (some (done fields)) quiet h e =
        (quiet, ground (arith, done_approval state e))

    answered_poll :
        (id : Value N) (reply : Http N) (log : List (Event N)) (net : Net)
        (later : Run N Net (Fields N))
        → is_quiet log ≡ true
        → After IsReady later
        → After IsReady (elim (polled reply) [
          | none ↦ later
          | some r ↦ some (r, record { net = net; log = answered (status_path id) reply ∷ log })
        ])
    answered_poll id transport_error log net later quiet h = quiet-Guarded log quiet
    answered_poll id type_error log net later quiet h = quiet-Guarded log quiet
    answered_poll id invalid log net later quiet h = quiet-Guarded log quiet
    answered_poll id (data_of state) log net later quiet h =
        answered_state id state log net later (state_of state) quiet h refl

    -- A poll that ends well has seen an approval.
    poll-After :
        (fuel deadline : ℕ) (id : Value N) (s : State N Net)
        → is_quiet s.log ≡ true
        → After IsReady (poll world fuel deadline id s)
    unfolding poll attempt is_quiet is_cleared is_clearance
    poll-After zero deadline id s quiet = tt
    poll-After (suc fuel) deadline id s quiet =
        let reply = (world.send (status_path id) s.net).0 in
        let s' = (attempt world (status_path id) s).1 in
        elim (Bool-cases (ltb (world.clock s.net) deadline)) [
          | inr late ↦ rw late (quiet-Guarded s.log quiet)
          | inl early ↦ rw early (
              answered_poll id reply s.log (world.send (status_path id) s.net).1
                (poll world fuel deadline id (slept world s')) quiet
                (poll-After fuel deadline id (slept world s') quiet))
        ]

module _ (numbers : Numbers) (parameters : List String) (bound : Fields numbers.Number)
    {Net : Type 0} (world : World numbers.Number Net) where
  open numbers use {Number}

  wait-After :
      (fuel approval_time : ℕ) (response : Fields Number) (s : State Number Net)
      → is_quiet s.log ≡ true
      → (is_text "allow" (get "decision" response) ≡ true → is_cleared s.log ≡ true)
      → After parameters bound
          (IsReady parameters bound world)
          (wait numbers world fuel approval_time response s)
  unfolding wait
  wait-After fuel approval_time response s quiet clear =
      let id = or_value (get "request_id" response) in
      let guarded = quiet-Guarded parameters bound s.log quiet in
      elim (member-cases response) [
        | inl e ↦ rw (After, e) guarded
        | inr (inl e) ↦ rw (After, e) guarded
        | inr (inr e) ↦ elim (Bool-cases (truthy numbers id)) [
          | inr named ↦ rw (After, e, named) guarded
          | inl named ↦ elim (Bool-cases (is_text "allow" (get "decision" response))) [
            | inl now ↦ rw (After, e, named, now) (quiet, clear now)
            | inr not_now ↦
                rw (After, e, named, not_now)
                  (poll-After parameters bound world fuel (world.clock s.net + approval_time) id s
                    quiet)
          ]
        ]
      ]
    where
      member-cases :
          (response : Fields Number)
          → (member ("allow" ∷ "require_approval" ∷ []) (get "decision" response) ≡ none)
            ⊎ ((member ("allow" ∷ "require_approval" ∷ []) (get "decision" response) ≡ some false)
                ⊎ (member ("allow" ∷ "require_approval" ∷ []) (get "decision" response)
                    ≡ some true))
      member-cases response = ground arith

  allowed_cleared :
      (response : Fields Number) (log : List (Event Number))
      → is_text "allow" (get "decision" response) ≡ true
      → is_cleared (answered authorize_path (data_of response) ∷ log) ≡ true
  unfolding is_cleared is_clearance
  allowed_cleared response log now = ground arith

  -- The log of a protected call that has come to an end. At most one event is a call of the function,
  -- and the event before it is the answer to a claim. Every name that this answer freezes is a parameter
  -- of the function and has the frozen value in the call; the other arguments are the caller's. Before
  -- the claim the server had answered that the action is allowed, or a status of "approved" or
  -- "allowed", and nothing was called.
  pub protect-Guarded :
      (fuel approval_time : ℕ) (net : Net)
      → After parameters bound
          (λ v log. IsGuarded parameters bound log)
          (protect numbers world fuel approval_time parameters bound
            (record { net = net; log = [] }))
  unfolding protect is_quiet is_cleared is_clearance
  protect-Guarded fuel approval_time net =
      let start : State Number Net = record { net = net; log = [] } in
      after-bind parameters bound (IsAnswered parameters bound authorize_path [])
        (λ v log. IsGuarded parameters bound log) (some (post world true authorize_path start)) _
        (post-After parameters bound world true authorize_path start refl)
        (λ response t answer.
          after-bind parameters bound (IsReady parameters bound world)
            (λ v log. IsGuarded parameters bound log)
            (wait numbers world fuel approval_time response t) _
            (wait-After fuel approval_time response t
              (subst (λ log. is_quiet log ≡ true) (sym answer.1) answer.2)
              (λ now.
                subst (λ log. is_cleared log ≡ true) (sym answer.1)
                  (allowed_cleared response answer.0 now)))
            (λ state u ready.
              after-bind parameters bound
                (IsAnswered parameters bound (claim_path (request_id_of numbers response state))
                  u.log)
                (λ v log. IsGuarded parameters bound log)
                (some (post world false (claim_path (request_id_of numbers response state)) u)) _
                (post-After parameters bound world false
                  (claim_path (request_id_of numbers response state)) u ready.0)
                (λ reply v claim.
                  claim-After parameters bound world (request_id_of numbers response state) reply v
                    claim.0 claim.1 claim.2 (claim.3 ready.1))))
