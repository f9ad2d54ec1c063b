-- ===== src/ControlFlow/Node.antt =====
-- Canvas nodes and the classification of their element names (mcp/gxp_core/canvas.py).
use look_lowcode.Prelude.{
  ℕ, ◌+◌, String, Bool, true, false, ◌&&◌, ◌||◌, Option, none, some, List, [], ◌∷◌, ◌==◌, one_of,
  ends_with, any, if◌then◌else◌,
}
use text.Mathlib.Text.{starts_with}
use look_lowcode.Condition.Ast.{Ast}

pub data Family : Type 0 where
  if_block loop_block try_block : Family

abbrev pub family_eq : Family → Family → Bool
family_eq if_block if_block = true
family_eq loop_block loop_block = true
family_eq try_block try_block = true
family_eq _ _ = false

-- Whether `container.get(marker) is True`, for one of the dictionaries that `_has_marker` looks into.
pub record Container : Type 0 where
  pub level_marker : Bool
  pub end_marker : Bool

-- What the replay reads of a node: its identity, its stored depth if it has one, its containers
-- (itself and those of `config`, `props` and `meta` that are dictionaries), and the condition that
-- `node_facts` finds.
pub record Node : Type 0 where
  pub key : String
  pub title : String
  pub element : String
  pub depth : Option (List String)
  pub containers : List Container
  pub condition : String
  pub condition_ast : Option Ast

pub record NodeRef : Type 0 where
  pub canvas_line : ℕ
  pub internal_index : ℕ
  pub node_key : String
  pub node_name : String
  pub node_type : String

abbrev pub node_ref : ℕ → Node → NodeRef
node_ref index node = record {
  canvas_line = index + 1;
  internal_index = index;
  node_key = node.key;
  node_name = node.title;
  node_type = node.element;
}

abbrev if_branches : List String
if_branches = "ElseIf" ∷ "ElseIfCondition" ∷ "Else" ∷ []

abbrev loop_openers : List String
loop_openers =
    "WhileLoop" ∷ "ForLoop" ∷ "ForEachArray" ∷ "ForEachDynamicArray" ∷ "ForEachObject" ∷ []

abbrev try_branches : List String
try_branches = "Catch" ∷ "Finally" ∷ []

abbrev if_openers : List String
if_openers =
    "IfCondition" ∷ "NullCondition" ∷ "FlowIsComplate" ∷ "FlowTaskIsComplate"
    ∷ "CurrentTaskIsComplate" ∷ []

-- END_FAMILY.get(element)
unfoldable pub end_family : String → Option Family
end_family element =
    if element == "IfEnd"
    then some if_block
    else if element == "LoopEnd"
    then some loop_block
    else if element == "EndTry"
    then some try_block
    else none

is_end : Option Family → Bool
is_end none = false
is_end (some f) = true

unfoldable pub opener_family : String → Option Family
unfolding is_end end_family
opener_family element =
    if one_of element loop_openers || starts_with element "ForEach"
    then some loop_block
    else if element == "Try"
    then some try_block
    else if one_of element if_branches || is_end (end_family element)
    then none
    else if one_of element if_openers
        || (starts_with element "Flow"
            && (ends_with element "Condition" || ends_with element "Complate"))
    then some if_block
    else none

unfoldable pub has_marker : (Container → Bool) → Node → Bool
has_marker marker node = any marker node.containers

pub data Role : Type 0 where
  else_if else_role if_end loop_end try_role catch finally end_try statement : Role
  root_of : Family → Role

abbrev pub is_else_role : Role → Bool
is_else_role else_role = true
is_else_role _ = false

abbrev default_role : Option Family → Role
default_role none = statement
default_role (some f) = root_of f

unfoldable pub role : String → Option Family → Role
role element family =
    if element == "ElseIf"
    then else_if
    else if element == "ElseIfCondition"
    then else_if
    else if element == "Else"
    then else_role
    else if element == "IfEnd"
    then if_end
    else if element == "LoopEnd"
    then loop_end
    else if element == "Try"
    then try_role
    else if element == "Catch"
    then catch
    else if element == "Finally"
    then finally
    else if element == "EndTry"
    then end_try
    else default_role family

-- Which of the arms of the replay's chain of tests an element takes.
pub data Marker : Type 0 where
  opener branch ender : Family → Marker
  plain : Marker

abbrev ender_or_plain : Option Family → Marker
ender_or_plain none = plain
ender_or_plain (some f) = ender f

unfoldable pub closing_marker : String → Marker
unfolding end_family
closing_marker element =
    if one_of element if_branches
    then branch if_block
    else if one_of element try_branches
    then branch try_block
    else ender_or_plain (end_family element)

abbrev pub opener_or : Option Family → Marker → Marker
opener_or none m = m
opener_or (some f) m = opener f

unfoldable pub marker_of : String → Marker
marker_of element = opener_or (opener_family element) (closing_marker element)
