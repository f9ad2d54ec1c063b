-- ===== src/Json.antt =====
-- JSON values as Python decodes them, and Python's tests on them. A floating-point number is kept as
-- its 64-bit pattern; what the code does with it comes from `Runtime`.
use Prim.Native.String.{compare}
use text.Mathlib.Text.{is_lt, is_le, find?}
use look_lowcode.Prelude.{
  ℕ, ℤ, pos, String, Bool, true, false, not, ◌&&◌, ◌||◌, Option, none, some, ◌==◌, ltb_ℤ, int_beq,
  if◌then◌else◌,
}

mutual
  pub data Value : Type 0 where
    str : String → Value
    obj : Fields → Value
    arr : Items → Value
    int : ℤ → Value
    float : ℕ → Value
    bool : Bool → Value
    null : Value

  -- The members of an object, in order.
  pub data Fields : Type 0 where
    field : String → Value → Fields → Fields
    end : Fields

  -- The elements of a list.
  pub data Items : Type 0 where
    cons : Value → Items → Items
    nil : Items

pub data Number : Type 0 where
  whole : ℤ → Number
  real : ℕ → Number

pub data Test : Type 0 where
  equal less less_equal greater greater_equal : Test

-- What the code takes from Python's library: character classes, `str.lower`, `str.upper`, `str(value)`,
-- floating-point numbers, and which texts can be encoded in UTF-8: those without lone surrogates.
pub record Runtime : Type 0 where
  pub is_space : ℕ → Bool
  pub is_alnum : ℕ → Bool
  pub digit : ℕ → Option ℕ
  pub lower : String → String
  pub upper : String → String
  pub str_of : Value → String
  pub float_of : String → ℕ
  pub float_test : Test → Number → Number → Bool
  pub encodable : String → Bool

-- A `bool` is a number in Python.
abbrev pub number_of : Value → Option Number
number_of (bool true) = some (whole (pos 1))
number_of (bool false) = some (whole (pos 0))
number_of (int n) = some (whole n)
number_of (float x) = some (real x)
number_of _ = none

abbrev int_test : Test → ℤ → ℤ → Bool
int_test equal a b = int_beq a b
int_test less a b = ltb_ℤ a b
int_test less_equal a b = not (ltb_ℤ b a)
int_test greater a b = ltb_ℤ b a
int_test greater_equal a b = not (ltb_ℤ a b)

abbrev text_test : Test → String → String → Bool
text_test equal a b = a == b
text_test less a b = is_lt (compare a b)
text_test less_equal a b = is_le (compare a b)
text_test greater a b = is_lt (compare b a)
text_test greater_equal a b = is_le (compare b a)

abbrev pub field_at : String → Fields → Option Value
field_at k end = none
field_at k (field j v fs) = if j == k then some v else field_at k fs

abbrev same_size : Fields → Fields → Bool
same_size end end = true
same_size (field _ _ fs) (field _ _ gs) = same_size fs gs
same_size _ _ = false

abbrev has_key : String → Fields → Bool
has_key k fs = elim (field_at k fs) [ none ↦ false | some _ ↦ true ]

module _ (py : Runtime) where
  unfoldable pub number_test : Test → Number → Number → Bool
  number_test t (whole a) (whole b) = int_test t a b
  number_test t a b = py.float_test t a b

  abbrev both_numbers : Option Number → Option Number → Bool
  both_numbers (some a) (some b) = number_test equal a b
  both_numbers _ _ = false

  -- a == b
  unfoldable mutual
    pub value_eq : Value → Value → Bool
    value_eq null null = true
    value_eq (str a) (str b) = a == b
    value_eq (arr xs) (arr ys) = items_eq xs ys
    value_eq (obj fs) (obj gs) = same_size fs gs && fields_eq fs gs
    value_eq a b = both_numbers (number_of a) (number_of b)

    pub items_eq : Items → Items → Bool
    items_eq nil nil = true
    items_eq (cons x xs) (cons y ys) = value_eq x y && items_eq xs ys
    items_eq _ _ = false

    pub fields_eq : Fields → Fields → Bool
    fields_eq end gs = true
    fields_eq (field k v fs) gs =
        elim (field_at k gs) [ none ↦ false | some w ↦ value_eq v w ] && fields_eq fs gs

  abbrev number_order : Test → Option Number → Option Number → Option Bool
  number_order t (some a) (some b) = some (number_test t a b)
  number_order t _ _ = none

  abbrev length_order : Test → Items → Items → Bool
  length_order t nil nil = elim t [ less_equal ↦ true | greater_equal ↦ true | _ ↦ false ]
  length_order t nil (cons _ _) = elim t [ less ↦ true | less_equal ↦ true | _ ↦ false ]
  length_order t _ _ = elim t [ greater ↦ true | greater_equal ↦ true | _ ↦ false ]

  -- a < b, a ≤ b, a > b, a ≥ b; `none` is a TypeError. Lists are compared at their first difference.
  unfoldable mutual
    unfolding value_eq

    pub value_order : Test → Value → Value → Option Bool
    value_order t (str a) (str b) = some (text_test t a b)
    value_order t (arr xs) (arr ys) = items_order t xs ys
    value_order t a b = number_order t (number_of a) (number_of b)

    pub items_order : Test → Items → Items → Option Bool
    items_order t (cons x xs) (cons y ys) =
        if value_eq x y then items_order t xs ys else value_order t x y
    items_order t nil ys = some (length_order t nil ys)
    items_order t (cons x xs) nil = some (length_order t (cons x xs) nil)

  any_eq : Value → Items → Bool
  any_eq v nil = false
  any_eq v (cons x xs) = value_eq x v || any_eq v xs

  -- item in container; `none` is a TypeError.
  unfoldable pub value_in : Value → Value → Option Bool
  unfolding any_eq
  value_in (str a) (str b) = some (elim (find? b a) [ none ↦ false | some _ ↦ true ])
  value_in v (str b) = none
  value_in v (arr xs) = some (any_eq v xs)
  value_in (str k) (obj fs) = some (has_key k fs)
  value_in (arr _) (obj fs) = none
  value_in (obj _) (obj fs) = none
  value_in v (obj fs) = some false
  value_in v _ = none
