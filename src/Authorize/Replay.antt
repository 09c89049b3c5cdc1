-- ===== src/Authorize/Replay.antt =====
-- An idempotency key that is used again.
use text.Mathlib.TextEquality.{eq_iff}
use aiagentguard.Json.{Numbers}
use aiagentguard.Policy.Errors.{Result-cases}
use aiagentguard.Policy.Evaluation.{Decision as PolicyDecision}
use aiagentguard.Authorize.Rows.{Organization, ToolRow, Request, Store, Outcome, answered}
use aiagentguard.Authorize.Lookups.{
  Libraries, Settings, Call, is_key, tool_by_id, tool_by_name, used_by, previous_request,
  replay_request, replay,
}
use aiagentguard.Authorize.Pipeline.{
  Prepared, prepared, prepare_amount, prepare_tool, prepare, policy_of, request_row, write,
  consumed, issue, authorize_new, authorize,
}
use aiagentguard.Authorize.Earned.{Preparation-cases}
use aiagentguard.Prelude.{
  ℕ, String, Bool, true, false, ◌&&◌, none, some, List, [], ◌∷◌, ◌++◌, ◌≡◌, refl, inl, inr,
  Bool-cases, str_eq, arith, first,
}

module _ {ℓ} {A : Type ℓ} (test : A → Bool) where
  first-append :
      (xs : List A) (x : A)
      → first test xs ≡ none
      → test x ≡ true
      → first test (xs ++ x ∷ []) ≡ some x
  unfolding first
  first-append [] x h t = ground arith
  first-append (y ∷ ys) x h t = ground (arith, first-append ys x)

  first-holds : (xs : List A) (x : A) → first test xs ≡ some x → test x ≡ true
  unfolding first
  first-holds [] x h = ground arith
  first-holds (y ∷ ys) x h = elim (Bool-cases (test y)) [
    | inl e ↦ ground arith
    | inr e ↦ first-holds ys x (ground arith)
  ]

str_eq_refl : (s : String) → str_eq s s ≡ true
str_eq_refl s = (eq_iff s s).1 refl

abbrev pub is_answered : {N : Type 0} → Outcome N → Bool
is_answered (answered r tool) = true
is_answered _ = false

module _ (numbers : Numbers) (libraries : Libraries numbers) where
  open numbers use {Number}

  amount-tool :
      (call : Call Number) (s : Store Number) (tool : ToolRow Number) (o : Organization)
      (p : Prepared Number)
      → prepare_amount numbers libraries call s tool o ≡ prepared p
      → tool ≡ p.tool
  unfolding prepare_amount
  amount-tool call s tool o p h = ground arith

  prepare_tool-tool :
      (call : Call Number) (s : Store Number) (tool : ToolRow Number) (p : Prepared Number)
      → prepare_tool numbers libraries call s tool ≡ prepared p
      → tool ≡ p.tool
  unfolding prepare_tool
  prepare_tool-tool call s tool p h = grind (arith, amount-tool)

  prepare-tool :
      (call : Call Number) (s : Store Number) (p : Prepared Number)
      → prepare numbers libraries call s ≡ prepared p
      → tool_by_name call.agent call.payload.tool s.tools ≡ some p.tool
  unfolding prepare
  prepare-tool call s p h = grind (arith, prepare_tool-tool)

  abbrev pub again : ℕ → ℕ → Call Number → Call Number
  again now id call = record call { now = now; id = id }

  previous-none :
      (call : Call Number) (s : Store Number) (key : String)
      → call.payload.idempotency_key ≡ some key
      → str_eq key "" ≡ false
      → replay numbers libraries call s ≡ none
      → previous_request call.agent key s.requests ≡ none
  unfolding replay
  previous-none call s key k full fresh = ground arith

  replay-found :
      (call : Call Number) (s : Store Number) (key : String) (r : Request Number)
      (o : Outcome Number)
      → call.payload.idempotency_key ≡ some key
      → str_eq key "" ≡ false
      → previous_request call.agent key s.requests ≡ some r
      → replay_request numbers libraries call s r ≡ o
      → replay numbers libraries call s ≡ some o
  unfolding replay
  replay-found call s key r o k full found answer = ground arith

  module _ (settings : Settings) (call : Call Number) (s : Store Number) (p : Prepared Number)
      (policy : PolicyDecision Number) where
    abbrev row : Request Number
    row =
        request_row numbers libraries settings call p policy
          (consumed numbers libraries settings call s p policy).0

    row-matches :
        (key : String)
        → call.payload.idempotency_key ≡ some key
        → used_by call.agent row && is_key row.idempotency_key key ≡ true
    unfolding request_row
    row-matches key k =
        rw
          (
            k,
            str_eq_refl call.agent.row.organization_id,
            str_eq_refl call.agent.row.id,
            str_eq_refl key,
          )
          refl

    found_again :
        (key : String)
        → call.payload.idempotency_key ≡ some key
        → previous_request call.agent key s.requests ≡ none
        → previous_request call.agent key (s.requests ++ (row ∷ [])) ≡ some row
    found_again key k h =
        first-append (λ r. used_by call.agent r && is_key r.idempotency_key key) s.requests row h
          (row-matches key k)

    answer_again :
        (now id : ℕ) (s' : Store Number)
        → s'.tools ≡ s.tools
        → str_eq p.tool.row.name call.payload.tool ≡ true
        → tool_by_id p.tool.row.id s.tools ≡ some p.tool
        → replay_request numbers libraries (again now id call) s' row ≡ answered row p.tool
    unfolding replay_request request_row
    answer_again now id s' same named found =
        rw
          (
            str_eq_refl call.credential.id,
            same,
            found,
            named,
            str_eq_refl (libraries.hash_payload call.payload.arguments),
          )
          refl

    issue-again :
        (now id : ℕ) (key : String)
        → call.payload.idempotency_key ≡ some key
        → str_eq key "" ≡ false
        → previous_request call.agent key s.requests ≡ none
        → str_eq p.tool.row.name call.payload.tool ≡ true
        → tool_by_id p.tool.row.id s.tools ≡ some p.tool
        → replay numbers libraries
            (again now id call)
            (issue numbers libraries settings call s p policy).1
          ≡ some (issue numbers libraries settings call s p policy).0
    unfolding issue write
    issue-again now id key k full fresh named found =
        replay-found (again now id call) (issue numbers libraries settings call s p policy).1 key
          row (answered row p.tool) k full (found_again key k fresh)
          (answer_again now id (issue numbers libraries settings call s p policy).1 refl named
            found)

    prepare-named :
        prepare numbers libraries call s ≡ prepared p
        → str_eq p.tool.row.name call.payload.tool ≡ true
    prepare-named e =
        let test =
          first-holds
            (λ (t : ToolRow Number).
              str_eq t.organization_id call.agent.row.organization_id
              && (str_eq t.row.name call.payload.tool
                  && str_eq t.row.environment call.agent.row.environment))
            s.tools p.tool (prepare-tool call s p e) in
        ground arith

  -- The ids of the tools are unique, as far as the tool that is asked for goes.
  abbrev pub HasOwnId : Call Number → Store Number → Type 0
  HasOwnId call s =
      (tool : ToolRow Number)
      → tool_by_name call.agent call.payload.tool s.tools ≡ some tool
      → tool_by_id tool.row.id s.tools ≡ some tool

  -- An action with a new idempotency key that got an answer gets the same answer when it is asked for
  -- again, with any settings, and this changes nothing.
  pub authorize-again :
      (settings settings' : Settings) (call : Call Number) (s : Store Number) (now id : ℕ)
      (key : String)
      → call.payload.idempotency_key ≡ some key
      → str_eq key "" ≡ false
      → HasOwnId call s
      → replay numbers libraries call s ≡ none
      → is_answered (authorize numbers libraries settings call s).0 ≡ true
      → authorize numbers libraries settings'
          (again now id call)
          (authorize numbers libraries settings call s).1
        ≡ authorize numbers libraries settings call s
  unfolding authorize authorize_new
  authorize-again settings settings' call s now id key k full own fresh h =
      elim (Preparation-cases (prepare numbers libraries call s)) [
        | inl (p, e) ↦ elim (Result-cases (policy_of numbers libraries call s p)) [
          | inl (policy, e') ↦
              let same =
                issue-again settings call s p policy now id key k full
                  (previous-none call s key k full fresh) (prepare-named settings call s p policy e)
                  (own p.tool (prepare-tool call s p e)) in
              ground arith
          | inr (why, e') ↦ absurd (ground arith)
        ]
        | inr (code, detail, e) ↦ absurd (ground arith)
      ]
