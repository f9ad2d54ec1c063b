-- ===== src/ControlFlow/Tests.antt =====
-- The theorems about control flow at a small canvas (mcp/gxp_core/canvas.py).
use look_lowcode.Prelude.{
  ℕ, String, Bool, true, false, none, some, Option, List, [], ◌∷◌, map, length, ◌≤◌, ◌≡◌, refl, ◌↔◌,
}
use look_lowcode.Condition.Ast.{Ast}
use look_lowcode.Condition.Evaluate.{holds, evaluate_condition}
use look_lowcode.Condition.Tests.{small_runtime, inputs, is_two}
use look_lowcode.ControlFlow.Node.{
  if_block, Node, node_ref, Role, else_role, root_of, opener_family, marker_of, closing_marker,
  has_marker, role,
}
use look_lowcode.ControlFlow.Replay.{
  Branch, valid, replay, visit, handle, depth_warnings, on_opener, on_plain, on_branch, on_end,
  end_on, branch_on, attach_branch, close_block, plugin_warnings, new_block, base_meta, mark_ends,
}
use look_lowcode.ControlFlow.Group.{
  Group, analyze_group, start, finish, status_of, missing_ends, close_open, duplicate_warnings,
  key_counts,
}
use look_lowcode.ControlFlow.Grammar.{WellNested}
use look_lowcode.ControlFlow.Nesting.{misnested, symbol_of, structure_iff, valid-WellNested}
use look_lowcode.ControlFlow.Scenario.{branch_results, hits}
use look_lowcode.ControlFlow.Branches.{
  chosen, AllAgree, masked, is_holds, Agrees-is_holds, branch_results-agree, hits_le_one,
}

abbrev element : String → String → Node
element key kind = record {
  key = key;
  title = kind;
  element = kind;
  depth = none;
  containers = [];
  condition = "";
  condition_ast = none;
}

abbrev canvas : Group
canvas = record {
  key = "main";
  title = "main";
  nodes =
      element "n1" "IfCondition"
      ∷ element "n2" "WriteLog"
      ∷ element "n3" "Else"
      ∷ element "n4" "ForLoop"
      ∷ element "n5" "LoopEnd"
      ∷ element "n6" "IfEnd"
      ∷ [];
}

abbrev orphaned : Group
orphaned = record { key = "main"; title = "main"; nodes = element "n1" "Else" ∷ [] }

structure_iff_example :
    (misnested (analyze_group canvas 0).warnings ≡ false) ↔ WellNested (map symbol_of canvas.nodes)
structure_iff_example = structure_iff canvas 0

canvas_valid : (analyze_group canvas 0).status ≡ valid
unfolding analyze_group start finish replay visit handle status_of depth_warnings on_opener on_plain
    on_branch on_end end_on branch_on attach_branch close_block missing_ends close_open
    plugin_warnings duplicate_warnings key_counts marker_of opener_family closing_marker has_marker
    new_block base_meta mark_ends role
canvas_valid = refl

valid-WellNested_example : WellNested (map symbol_of canvas.nodes)
valid-WellNested_example = valid-WellNested canvas 0 canvas_valid

abbrev branch_of : ℕ → String → Role → Option Ast → Branch
branch_of index kind role ast = record {
  ref = node_ref index (element kind kind);
  role = role;
  condition = "";
  condition_ast = ast;
  body_start = 0;
  body_end = none;
}

abbrev chain : List Branch
chain =
    branch_of 0 "IfCondition" (root_of if_block) (some is_two)
    ∷ branch_of 2 "Else" else_role none
    ∷ []

abbrev truth : Branch → Bool
truth b = is_holds (evaluate_condition small_runtime inputs b.condition_ast).result

branch_results-agree_example :
    AllAgree
      (branch_results small_runtime inputs holds holds chain)
      (masked true (chosen truth true chain))
branch_results-agree_example =
    branch_results-agree small_runtime inputs truth holds true chain
      (λ b. Agrees-is_holds (evaluate_condition small_runtime inputs b.condition_ast).result) refl
      (refl, tt)

hits_le_one_example : length (hits (branch_results small_runtime inputs holds holds chain)) ≤ 1
hits_le_one_example = hits_le_one small_runtime inputs holds chain (refl, tt)
