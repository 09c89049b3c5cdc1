-- ===== src/Json.antt =====
-- The JSON values that the program's `dict` and `Any` arguments hold, with the operations of
-- Python on them. The numbers, `int` and `float`, are the parameter `Numbers`.
use Prim.Native.String.{◌∷◌ as str_cons}
use aiagentguard.Prelude.{
  ℕ, suc, String, Bool, true, false, not, ◌&&◌, Option, none, some, List, map, [], ◌∷◌, str_eq,
  if◌then◌else◌, ◌==◌,
}
use aiagentguard.Prelude.Int.{ℤ}

-- What the program uses of Python's `int`, `float` and `Decimal`: the numbers of a JSON value,
-- their `==`, their `str(…)`, the integer that an `int` is, whether a number is finite, and the
-- decimals that a text stands for, with their order.
pub record Numbers : Type 1 where
  pub Number : Type 0
  pub num_eq : Number → Number → Bool
  pub of_bool : Bool → Number
  pub text : Number → String
  pub as_int : Number → Option ℤ
  pub num_finite : Number → Bool
  pub Decimal : Type 0
  pub parse : String → Option Decimal
  pub is_finite : Decimal → Bool
  pub dec_ltb : Decimal → Decimal → Bool
  pub dec_eqb : Decimal → Decimal → Bool

mutual
  pub data Value (N : Type 0) : Type 0 where
    null : Value N
    bool : Bool → Value N
    num : N → Value N
    str : String → Value N
    list : Items N → Value N
    dict : Fields N → Value N

  pub data Items (N : Type 0) : Type 0 where
    nil : Items N
    cons : Value N → Items N → Items N

  pub data Fields (N : Type 0) : Type 0 where
    end : Fields N
    field : String → Value N → Fields N → Fields N

module _ {N : Type 0} where
  -- `fields.get(key)`, with `none` for a missing key.
  unfoldable pub get : String → Fields N → Option (Value N)
  get key end = none
  get key (field k v rest) = if str_eq k key then some v else get key rest

  unfoldable pub has_key : String → Fields N → Bool
  unfolding get
  has_key key fields = elim (get key fields) [ none ↦ false | some v ↦ true ]

  unfoldable pub keys : Fields N → List String
  keys end = []
  keys (field k v rest) = k ∷ keys rest

  unfoldable pub size : Fields N → ℕ
  size end = 0
  size (field k v rest) = suc (size rest)

  unfoldable pub count : Items N → ℕ
  count nil = 0
  count (cons v rest) = suc (count rest)

  unfoldable pub items : Items N → List (Value N)
  items nil = []
  items (cons v rest) = v ∷ items rest

  abbrev pub is_bool : Value N → Bool
  is_bool (bool b) = true
  is_bool _ = false

  abbrev pub is_dict : Value N → Bool
  is_dict (dict fields) = true
  is_dict _ = false

  chars : String → List (Value N)
  chars String.[] = []
  chars (String.◌∷◌ c s) = str (str_cons c "") ∷ chars s

  -- What Python iterates over: `none` where a value is not iterable.
  unfoldable pub elements : Value N → Option (List (Value N))
  unfolding items chars keys
  elements (list xs) = some (items xs)
  elements (str s) = some (chars s)
  elements (dict fields) = some (map str (keys fields))
  elements _ = none

module _ (numbers : Numbers) where
  open numbers use {Number, num_eq, of_bool, num_finite}

  -- `bool(value)`.
  abbrev pub truthy : Value Number → Bool
  truthy null = false
  truthy (bool b) = b
  truthy (num n) = not (num_eq n (of_bool false))
  truthy (str text) = not (str_eq text "")
  truthy (list nil) = false
  truthy (dict end) = false
  truthy _ = true

  mutual
    -- Python's `==`: `True == 1`, and dictionaries are equal in any order.
    py_eq_value : Value Number → Value Number → Bool
    py_eq_value null null = true
    py_eq_value (bool a) (bool b) = num_eq (of_bool a) (of_bool b)
    py_eq_value (bool a) (num n) = num_eq (of_bool a) n
    py_eq_value (num n) (bool b) = num_eq n (of_bool b)
    py_eq_value (num m) (num n) = num_eq m n
    py_eq_value (str s) (str t) = str_eq s t
    py_eq_value (list xs) (list ys) = py_eq_items xs ys
    py_eq_value (dict fs) (dict gs) = (size fs == size gs) && py_eq_fields fs gs
    py_eq_value _ _ = false

    py_eq_items : Items Number → Items Number → Bool
    py_eq_items nil nil = true
    py_eq_items (cons x xs) (cons y ys) = py_eq_value x y && py_eq_items xs ys
    py_eq_items _ _ = false

    py_eq_fields : Fields Number → Fields Number → Bool
    py_eq_fields end gs = true
    py_eq_fields (field k v fs) gs =
        elim (get k gs) [ none ↦ false | some w ↦ py_eq_value v w ] && py_eq_fields fs gs

  -- `json.dumps(value, allow_nan=False)` raises at the first number that is not finite.
  mutual
    value_finite : Value Number → Bool
    value_finite (num n) = num_finite n
    value_finite (list xs) = items_finite xs
    value_finite (dict fs) = fields_finite fs
    value_finite _ = true

    items_finite : Items Number → Bool
    items_finite nil = true
    items_finite (cons x xs) = value_finite x && items_finite xs

    fields_finite : Fields Number → Bool
    fields_finite end = true
    fields_finite (field k v fs) = value_finite v && fields_finite fs

  unfoldable pub py_eq : Value Number → Value Number → Bool
  unfolding py_eq_value size get
  py_eq a b = py_eq_value a b

  unfoldable pub dumps_ok : Fields Number → Bool
  unfolding value_finite
  dumps_ok fs = fields_finite fs
