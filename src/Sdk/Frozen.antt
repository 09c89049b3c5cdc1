-- ===== src/Sdk/Frozen.antt =====
-- What `_frozen_call` and `_wait` of packages/sdk-python/agentguard/__init__.py make of a reply: the
-- arguments that the call gets, and the statuses that end the wait well.
use aiagentguard.Json.{Value, str, list, dict, Fields, end, field, get, keys}
use aiagentguard.Sdk.{done, member, is_text, set, frozen_call, state_of}
use aiagentguard.Prelude.{
  String, [], ◌∷◌, ◌≡◌, refl, sym, Bool, true, false, ◌||◌, Option, none, some, List, all, str_eq,
  str_in, eq_iff, Bool-cases, inl, inr, arith, if◌then◌else◌, ◌∙◌,
}

module _ {N : Type 0} where
  -- The value that a reply freezes for a name: the last one that it gives.
  unfoldable pub frozen_value : String → Fields N → Option (Value N)
  frozen_value name end = none
  frozen_value name (field k v rest) =
      let later = frozen_value name rest in
      elim later [ some w ↦ some w | none ↦ if str_eq k name then some v else none ]

  abbrev pub or_bound : Option (Value N) → Option (Value N) → Option (Value N)
  or_bound (some v) bound = some v
  or_bound none bound = bound

  -- The arguments have the frozen values, and for the other names the caller's; every frozen name is a
  -- parameter of the function.
  abbrev pub IsFrozen : (parameters : List String) → (bound frozen arguments : Fields N) → Type 0
  IsFrozen parameters bound frozen arguments =
      ((name : String) → get name arguments ≡ or_bound (frozen_value name frozen) (get name bound))
      × (all (λ name. str_in name parameters) (keys frozen) ≡ true)

  get-set :
      (name key : String) (v : Value N) (fields : Fields N)
      → get name (set key v fields) ≡ (if str_eq key name then some v else get name fields)
  unfolding get set
  get-set name key v end = refl
  get-set name key v (field k w rest) = elim (Bool-cases (str_eq k key)) [
    | inl on ↦ ground (arith, (eq_iff k key).0 on)
    | inr off ↦ elim (Bool-cases (str_eq k name)) [
      | inr other ↦ rw (off, other) (get-set name key v rest)
      | inl here ↦
          rw (off, here)
            (elim (Bool-cases (str_eq key name)) [
              | inr there ↦ rw there refl
              | inl both ↦ absurd (
                  differ
                    ((eq_iff k key).1 ((eq_iff k name).0 here ∙ sym ((eq_iff key name).0 both)))
                    off)
            ])
    ]
  ]
    where
      differ : {b : Bool} → b ≡ true → b ≡ false → ⊥
      differ p q = cc

  frozen_call-names :
      (parameters : List String) (bound frozen : Fields N) {arguments : Fields N}
      → frozen_call parameters bound frozen ≡ done arguments
      → all (λ name. str_in name parameters) (keys frozen) ≡ true
  unfolding frozen_call keys
  frozen_call-names parameters bound end h = refl
  frozen_call-names parameters bound (field k v rest) {arguments = arguments} h =
      ground (arith, frozen_call-names parameters (set k v bound) rest {arguments = arguments})

  frozen_call-get :
      (parameters : List String) (bound frozen : Fields N) {arguments : Fields N} (name : String)
      → frozen_call parameters bound frozen ≡ done arguments
      → get name arguments ≡ or_bound (frozen_value name frozen) (get name bound)
  unfolding frozen_call frozen_value
  frozen_call-get parameters bound end name h = ground arith
  frozen_call-get parameters bound (field k v rest) {arguments = arguments} name h = ground (
    arith,
    frozen_call-get parameters (set k v bound) rest {arguments = arguments} name,
    get-set name k v bound,
  )

  pub frozen_call-IsFrozen :
      (parameters : List String) (bound frozen : Fields N) {arguments : Fields N}
      → frozen_call parameters bound frozen ≡ done arguments
      → IsFrozen parameters bound frozen arguments
  frozen_call-IsFrozen parameters bound frozen h = (
    λ name. frozen_call-get parameters bound frozen name h,
    frozen_call-names parameters bound frozen h,
  )

  -- The statuses of an answer that ends the wait well.
  abbrev pub is_approval : Fields N → Bool
  is_approval state =
      is_text "approved" (get "status" state) || is_text "allowed" (get "status" state)

  approval_member :
      (status : Option (Value N))
      → member ("approved" ∷ "allowed" ∷ []) status ≡ some true
      → is_text "approved" status || is_text "allowed" status ≡ true
  unfolding member
  approval_member none h = absurd (ground arith)
  approval_member (some (str text)) h = ground arith
  approval_member (some (list xs)) h = absurd (ground arith)
  approval_member (some (dict fields)) h = absurd (ground arith)
  approval_member (some v) h = absurd (ground arith)

  pub done_approval :
      (state : Fields N) {fields : Fields N}
      → state_of state ≡ some (done fields)
      → is_approval state ≡ true
  unfolding state_of
  done_approval state h = approval_member (get "status" state) (ground arith)
