-- ===== src/Condition/Build.antt =====
-- `_operand` and `condition_ast` of mcp/gxp_core/canvas.py. Source paths are made with `str()` of an index.
use look_lowcode.Prelude.{
  ℕ, ◌+◌, pos, String, Bool, true, false, not, ◌&&◌, Option, none, some, List, [], ◌∷◌, ◌==◌,
  if◌then◌else◌,
}
use Prim.Native.String.{◌++◌}
use look_lowcode.Dict.{value_or}
use look_lowcode.Json.{
  Runtime, Value, null, int, str, arr, obj, Items, nil, cons, Fields, end, field, field_at,
}
use look_lowcode.Condition.Ast.{Operand, Ast, Asts, predicate, condition_group, child}
use look_lowcode.Condition.Text.{compact, text_of, truthy}

-- fields.get(key, default)
abbrev pub get : String → Value → Fields → Value
get key default fs = value_or default (field_at key fs)

abbrev pub or_value : Value → Value → Value
or_value v w = if truthy v then v else w

abbrev is_present : Value → Bool
is_present null = false
is_present _ = true

abbrev pub located : String → Operand → Operand
located path o = record o { source_path = path }

-- The operand of a value that is no dictionary.
abbrev plain_operand : Runtime → Value → String → Operand
plain_operand py v fallback = record {
  kind = if fallback == "" then "literal" else "field";
  code = if fallback == "" then text_of py (or_value v (str "")) else fallback;
  label = fallback;
  value = if fallback == "" then v else str fallback;
  data_type = "";
  object_attribute = "";
  source_path = "";
}

operand_body : Runtime → Value → String → Operand
operand_body py (obj fs) fallback = record {
  kind = text_of py (or_value (get "paramTypes" (str "") fs) (str "expression"));
  code = text_of py (or_value (get "code" (str "") fs) (str ""));
  label = compact py (get "label" null fs);
  value = get "value" null fs;
  data_type = text_of py (or_value (get "dataType" (str "") fs) (get "type" (str "") fs));
  object_attribute = text_of py (or_value (get "objectAttribute" (str "") fs) (str ""));
  source_path = "";
}
operand_body py v fallback = plain_operand py v fallback

unfoldable pub operand : Runtime → String → Value → String → Operand
unfolding operand_body
operand py path v fallback = located path (operand_body py v fallback)

abbrev first_present : Fields → List String → String
first_present fs [] = "value"
first_present fs (key ∷ keys) =
    let rest = first_present fs keys in if is_present (get key null fs) then key else rest

abbrev right_key : Fields → String
right_key fs = first_present fs ("value" ∷ "ParamInput" ∷ "source" ∷ "valueTarget" ∷ [])

abbrev text_or : String → String → String
text_or s t = if s == "" then t else s

abbrev type_text : Runtime → Value → String → String → String
type_text py v left right = if truthy v then text_of py v else text_or left right

abbrev pub left_of : Runtime → String → Fields → String → Operand
left_of py path fs name =
    let target = get "target" null fs in
    operand py (path ++ (if name == "" then ".target" else ".Field"))
      (if is_present target then target else str name) name

abbrev pub right_of : Runtime → String → Fields → Operand
right_of py path fs = operand py (path ++ "." ++ right_key fs) (get (right_key fs) null fs) ""

abbrev pub filter_name : Runtime → Fields → String
filter_name py fs = text_of py (or_value (get "Field" (str "") fs) (str ""))

abbrev pub filter_operator : Runtime → Fields → String
filter_operator py fs =
    text_of py (or_value (get "equalTo" (str "") fs) (get "Operator" (str "") fs))

abbrev pub is_vacant : Runtime → Fields → Bool
is_vacant py fs =
    filter_operator py fs == ""
    && filter_name py fs == ""
    && not (is_present (get "target" null fs))

-- A filter that holds no filters of its own; `none` is passed over.
unfoldable pub predicate_of : Runtime → String → Fields → Option Ast
unfolding operand
predicate_of py path fs =
    let left = left_of py path fs (filter_name py fs) in
    let right = right_of py path fs in
    if is_vacant py fs
    then none
    else some (
        predicate left (filter_operator py fs) right
          (type_text py (get "type" (str "") fs) left.data_type right.data_type) path)

abbrev pub is_list : Value → Bool
is_list (arr _) = true
is_list _ = false

abbrev pub is_object : Value → Bool
is_object (obj _) = true
is_object _ = false

abbrev pub has_filters : Fields → Bool
has_filters fs = is_list (get "Filters" null fs)

abbrev pub with_child : Option Ast → Asts → Asts
with_child none rest = rest
with_child (some ast) rest = child ast rest

abbrev pub logic_of : Runtime → Fields → String
logic_of py fs = py.upper (text_of py (or_value (get "Logic" (str "") fs) (str "AND")))

abbrev pub filter_path : Runtime → String → ℕ → String
filter_path py path index = path ++ ".Filters[" ++ py.str_of (int (pos index)) ++ "]"

-- The child that an item of the list gives, from what it gives as a condition of its own.
unfoldable pub filter_ast : Runtime → String → Value → Option Ast → Option Ast
unfolding predicate_of
filter_ast py path (obj fs) nested = if has_filters fs then nested else predicate_of py path fs
filter_ast py path _ nested = none

unfoldable mutual
  pub condition_ast : Runtime → String → Value → Option Ast
  condition_ast py path (obj fs) =
      if is_object (get "whereConditions" null fs) && not (has_filters fs)
      then nested_where py (path ++ ".whereConditions") fs
      else if has_filters fs
      then some (condition_group (logic_of py fs) (filters py path fs) path)
      else none
  condition_ast py path _ = none

  -- The value at `whereConditions`.
  pub nested_where : Runtime → String → Fields → Option Ast
  nested_where py path end = none
  nested_where py path (field k v fs) =
      let here = condition_ast py path v in
      let later = nested_where py path fs in if k == "whereConditions" then here else later

  -- The children that the list at `Filters` gives.
  pub filters : Runtime → String → Fields → Asts
  filters py path end = Asts.none
  filters py path (field k v fs) =
      let here = filter_list py path v in
      let later = filters py path fs in if k == "Filters" then here else later

  pub filter_list : Runtime → String → Value → Asts
  filter_list py path (arr xs) = filter_items py path 0 xs
  filter_list py path _ = Asts.none

  pub filter_items : Runtime → String → ℕ → Items → Asts
  filter_items py path index nil = Asts.none
  filter_items py path index (cons v rest) =
      let item_path = filter_path py path index in
      with_child (filter_ast py item_path v (condition_ast py item_path v))
        (filter_items py path (index + 1) rest)
