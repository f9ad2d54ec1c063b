-- ===== src/Handoff/Ordered.antt =====
-- The order of keys that `json.dumps` with `sort_keys=True` writes (mcp/gxp_core/handoff_store.py,
-- `canonical_bytes`), and that `json.loads` therefore reads back.
use look_lowcode.Prelude.{
  String, true, false, Option, none, some, ◌==◌, eq_iff, Bool-cases, inl, inr, ◌≡◌, refl, ◌∙◌, ap,
  if◌then◌else◌,
}
use look_lowcode.Dict.{value_or}
use look_lowcode.Json.{Value, null, str, arr, obj, Items, nil, cons, Fields, end, field, field_at}
use look_lowcode.Condition.Build.{get}
use look_lowcode.Texts.{precedes}
use look_lowcode.Texts.Order.{precedes_irrefl}

unfoldable pub insert_field : String → Value → Fields → Fields
insert_field k v end = field k v end
insert_field k v (field j w fs) =
    if precedes j k then field j w (insert_field k v fs) else field k v (field j w fs)

-- The value with the fields of every object in it in the order of their keys.
unfoldable mutual
  pub in_order : Value → Value
  in_order (obj fs) = obj (fields_in_order fs)
  in_order (arr xs) = arr (items_in_order xs)
  in_order v = v

  pub fields_in_order : Fields → Fields
  fields_in_order end = end
  fields_in_order (field k v fs) = insert_field k (in_order v) (fields_in_order fs)

  pub items_in_order : Items → Items
  items_in_order nil = nil
  items_in_order (cons v xs) = cons (in_order v) (items_in_order xs)

apart : (j k key : String) → precedes j k ≡ true → (j == key) ≡ true → (k == key) ≡ false
apart j k key before same = elim (Bool-cases (k == key)) [
  | inl other ↦ absurd (
      cc (
        precedes_irrefl key,
        ap (λ t. precedes t k) ((eq_iff j key).0 same),
        before,
        ap (precedes key) ((eq_iff k key).0 other),
      ))
  | inr differs ↦ differs
]

field_at-insert_field :
    (key k : String) (v : Value) (fs : Fields)
    → field_at key (insert_field k v fs) ≡ (if k == key then some v else field_at key fs)
unfolding insert_field
field_at-insert_field key k v end = refl
field_at-insert_field key k v (field j w fs) = elim (Bool-cases (precedes j k)) [
  | inl before ↦ rw before (elim (Bool-cases (j == key)) [
    | inl same ↦ rw (same, apart j k key before same) refl
    | inr other ↦ rw other (field_at-insert_field key k v fs)
  ])
  | inr behind ↦ rw behind refl
]

abbrev mapped : Option Value → Option Value
mapped none = none
mapped (some v) = some (in_order v)

-- Sorting the keys of a dictionary changes none of its lookups but for the order within what is found.
pub field_at-fields_in_order :
    (key : String) (fs : Fields) → field_at key (fields_in_order fs) ≡ mapped (field_at key fs)
unfolding in_order
field_at-fields_in_order key end = refl
field_at-fields_in_order key (field k v fs) =
    field_at-insert_field key k (in_order v) (fields_in_order fs) ∙ elim (Bool-cases (k == key)) [
      | inl same ↦ rw same refl
      | inr other ↦ rw other (field_at-fields_in_order key fs)
    ]

found-str :
    (found : Option Value) (t : String)
    → value_or null found ≡ str t
    → value_or null (mapped found) ≡ str t
unfolding in_order
found-str none t h = h
found-str (some v) t h = ap in_order h

pub get-fields_in_order :
    (key t : String) (fs : Fields)
    → get key null fs ≡ str t
    → get key null (fields_in_order fs) ≡ str t
get-fields_in_order key t fs h =
    ap (value_or null) (field_at-fields_in_order key fs) ∙ found-str (field_at key fs) t h
