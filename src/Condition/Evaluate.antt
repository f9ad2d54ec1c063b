-- ===== src/Condition/Evaluate.antt =====
-- `_resolve_operand` and `evaluate_condition_ast` of mcp/gxp_core/canvas.py.
use Prim.Native.Char.{code}
use look_lowcode.Prelude.{
  ℕ, String, Bool, true, false, not, ◌&&◌, ◌||◌, Option, none, some, List, [], ◌∷◌, ◌++◌, leb,
  nat_beq, ◌==◌, one_of, if◌then◌else◌,
}
use look_lowcode.Dict.{Dict, lookup}
use look_lowcode.Json.{
  Runtime, Value, null, str, less, less_equal, greater, greater_equal, value_eq, value_order,
  value_in,
}
use look_lowcode.Condition.Ast.{Operand, Ast, Asts, predicate, condition_group, child}
use look_lowcode.Condition.Text.{strip, compact, text_of, tail_name, literal}

pub data Tri : Type 0 where
  holds fails unknown : Tri

-- candidate not in (None, "")
abbrev is_blank : Value → Bool
is_blank null = true
is_blank (str s) = s == ""
is_blank _ = false

abbrev unless_blank : Bool → String → List String → List String
unless_blank blank s rest = if blank then rest else s ∷ rest

unfoldable pub candidates : Runtime → Operand → List String
unfolding text_of
candidates py o =
    unless_blank (o.code == "") o.code (
      unless_blank (is_blank o.value) (text_of py o.value)
        (unless_blank (o.label == "") o.label []))

abbrev is_parenthesis : ℕ → Bool
is_parenthesis c = nat_beq c b'(' || nat_beq c b')'

abbrev found_as : String → Option Value → Option (Value × String)
found_as name none = none
found_as name (some v) = some (v, name)

abbrev or_else {ℓ} : {A : Type ℓ} → Option A → Option A → Option A
or_else none o = o
or_else (some a) o = some a

named_input : Dict Value → Option String → Option (Value × String)
named_input inputs none = none
named_input inputs (some name) = found_as name (lookup name inputs)

input_for : Runtime → Dict Value → String → Option (Value × String)
unfolding named_input
input_for py inputs candidate =
    let simple = strip is_parenthesis candidate in
    or_else (named_input inputs (some candidate))
      (or_else (named_input inputs (some simple)) (named_input inputs (tail_name py simple)))

first_input : Runtime → Dict Value → List String → Option (Value × String)
unfolding input_for
first_input py inputs [] = none
first_input py inputs (c ∷ cs) = or_else (input_for py inputs c) (first_input py inputs cs)

first_literal : Runtime → List String → Option (Value × String)
first_literal py [] = none
first_literal py (c ∷ cs) = or_else (found_as "literal" (literal py c)) (first_literal py cs)

-- The value of an operand and where it comes from.
unfoldable pub resolve_operand : Runtime → Dict Value → Operand → Option (Value × String)
unfolding first_input first_literal candidates
resolve_operand py inputs o =
    let names = candidates py o in
    or_else (first_input py inputs names) (
      if one_of (py.lower o.kind) ("custom" ∷ "literal" ∷ []) then first_literal py names else none)

-- re.sub(r"[^a-z]", "", s)
only_letters : String → String
only_letters String.[] = ""
only_letters (String.◌∷◌ c s) =
    let rest = only_letters s in
    if leb b'a' (code c) && leb (code c) b'z' then String.◌∷◌ c rest else rest

unfoldable pub normal_operator : Runtime → String → String
unfolding only_letters
normal_operator py operator =
    let bare = strip py.is_space operator in
    if one_of bare ("=" ∷ "==" ∷ [])
    then "equal"
    else if one_of bare ("!=" ∷ "<>" ∷ [])
    then "notequal"
    else only_letters (py.lower operator)

unfoldable pub is_unary_null : String → Bool
is_unary_null op = one_of op ("equalnull" ∷ "isnull" ∷ "notequalnull" ∷ "isnotnull" ∷ [])

abbrev negated : Option Bool → Option Bool
negated none = none
negated (some b) = some (not b)

abbrev is_null : Value → Bool
is_null null = true
is_null _ = false

-- `none` for an operator that is not supported and for a TypeError.
unfoldable pub matched : Runtime → String → Value → Value → Option Bool
unfolding value_eq value_order value_in
matched py op left right =
    if one_of op ("equal" ∷ "equalto" ∷ [])
    then some (value_eq py left right)
    else if one_of op ("notequal" ∷ "notequalto" ∷ [])
    then some (not (value_eq py left right))
    else if op == "greaterthan"
    then value_order py greater left right
    else if op == "greaterthanorequal"
    then value_order py greater_equal left right
    else if op == "lessthan"
    then value_order py less left right
    else if op == "lessthanorequal"
    then value_order py less_equal left right
    else if op == "contains"
    then value_in py right left
    else if op == "notcontains"
    then negated (value_in py right left)
    else if one_of op ("equalnull" ∷ "isnull" ∷ [])
    then some (is_null left)
    else if one_of op ("notequalnull" ∷ "isnotnull" ∷ [])
    then some (not (is_null left))
    else none

abbrev tri_of : Option Bool → Tri
tri_of none = unknown
tri_of (some true) = holds
tri_of (some false) = fails

-- The part of the answer that other code reads: the result and `unresolved_inputs`.
pub record Evaluation : Type 0 where
  pub result : Tri
  pub unresolved : List String

-- `_operand_text`, with the given name where it is empty
operand_name : Runtime → String → Operand → String
operand_name py fallback o =
    let name = compact py (
      if not (o.code == "")
      then str o.code
      else if not (o.label == "")
      then str o.label
      else o.value) in
    if name == "" then fallback else name

abbrev unless_resolved {ℓ} : {A : Type ℓ} → Option A → String → List String
unless_resolved none name = name ∷ []
unless_resolved (some _) name = []

abbrev match_resolved :
    Runtime → String → Option (Value × String) → Option (Value × String) → Option Bool
match_resolved py op (some (left, _)) (some (right, _)) = matched py op left right
match_resolved py op (some (left, _)) none =
    if is_unary_null op then matched py op left null else none
match_resolved py op none right = none

unfoldable pub evaluate_predicate : Runtime → Dict Value → Operand → String → Operand → Evaluation
unfolding matched operand_name normal_operator is_unary_null
evaluate_predicate py inputs left operator right =
    let op = normal_operator py operator in
    let l = resolve_operand py inputs left in
    let r = resolve_operand py inputs right in
    record {
      result = tri_of (match_resolved py op l r);
      unresolved =
          unless_resolved l (operand_name py "left_operand" left)
          ++ (if is_unary_null op
              then []
              else unless_resolved r (operand_name py "right_operand" right));
    }

abbrev pub same_tri : Tri → Tri → Bool
same_tri holds holds = true
same_tri fails fails = true
same_tri unknown unknown = true
same_tri _ _ = false

-- t in values
abbrev pub has_result : Tri → List Evaluation → Bool
has_result t [] = false
has_result t (e ∷ es) = same_tri t e.result || has_result t es

-- all(value == t for value in values)
abbrev pub all_results : Tri → List Evaluation → Bool
all_results t [] = true
all_results t (e ∷ es) = same_tri t e.result && all_results t es

unfoldable pub group_result : Bool → List Evaluation → Tri
group_result disjunction [] = unknown
group_result disjunction (e ∷ es) =
    if disjunction
    then (if has_result holds (e ∷ es)
        then holds
        else if all_results fails (e ∷ es)
        then fails
        else unknown)
    else if has_result fails (e ∷ es)
    then fails
    else if all_results holds (e ∷ es)
    then holds
    else unknown

-- list(dict.fromkeys(names))
keep_new : List String → List String → List String
keep_new seen [] = []
keep_new seen (x ∷ xs) =
    let old = keep_new seen xs in
    let new = x ∷ keep_new (x ∷ seen) xs in if one_of x seen then old else new

unfoldable pub distinct : List String → List String
unfolding keep_new
distinct names = keep_new [] names

abbrev all_unresolved : List Evaluation → List String
all_unresolved [] = []
all_unresolved (e ∷ es) = e.unresolved ++ all_unresolved es

abbrev pub is_or : Runtime → String → Bool
is_or py logic = py.upper logic == "OR"

unfoldable pub group_evaluation : Runtime → String → List Evaluation → Evaluation
unfolding group_result distinct
group_evaluation py logic evaluations = record {
  result = group_result (is_or py logic) evaluations;
  unresolved = distinct (all_unresolved evaluations);
}

unfoldable mutual
  pub evaluate : Runtime → Dict Value → Ast → Evaluation
  evaluate py inputs (predicate left operator right data_type path) =
      evaluate_predicate py inputs left operator right
  evaluate py inputs (condition_group logic children path) =
      group_evaluation py logic (evaluate_all py inputs children)

  pub evaluate_all : Runtime → Dict Value → Asts → List Evaluation
  evaluate_all py inputs Asts.none = []
  evaluate_all py inputs (child ast rest) = evaluate py inputs ast ∷ evaluate_all py inputs rest

-- `evaluate_condition_ast`: a branch without a condition is unknown.
unfoldable pub evaluate_condition : Runtime → Dict Value → Option Ast → Evaluation
evaluate_condition py inputs none = record { result = unknown; unresolved = [] }
evaluate_condition py inputs (some ast) = evaluate py inputs ast
