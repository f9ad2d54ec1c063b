-- ===== src/ControlFlow/Scenario.antt =====
-- `_scenario_items` and `_evaluate_scenarios` of mcp/gxp_core/canvas.py.
use look_lowcode.Prelude.{
  ℕ, zero, suc, ◌+◌, ◌-◌, String, Bool, true, false, not, ◌&&◌, ◌||◌, Option, none, some, List, [],
  ◌∷◌, ◌++◌, leb, ltb, nat_beq, length, any, ◌==◌, if◌then◌else◌,
}
use look_lowcode.Dict.{Dict, lookup, insert, value_or}
use look_lowcode.Json.{
  Runtime, Value, null, arr, obj, Items, nil, cons, Fields, end, field, field_at,
}
use look_lowcode.Condition.Text.{text_of, truthy}
use look_lowcode.Condition.Evaluate.{
  Tri, holds, fails, unknown, same_tri, evaluate_condition, distinct,
}
use look_lowcode.ControlFlow.Node.{Family, try_block, Node, NodeRef, node_ref, Role, is_else_role}
use look_lowcode.ControlFlow.Replay.{Branch, Block, BlockId, Meta}
use look_lowcode.ControlFlow.Group.{Analysis}

pub data ScenarioError : Type 0 where
  not_scenarios too_many_scenarios not_inputs : ScenarioError

abbrev is_object : Value → Bool
is_object (obj _) = true
is_object _ = false

named_fields : Fields → List (String × Value)
named_fields end = []
named_fields (field name values rest) = (name, values) ∷ named_fields rest

-- str(item.get("name", f"scenario_{index + 1}")): `position_name` writes the default.
scenario_name : Runtime → (ℕ → String) → ℕ → Option Value → String
scenario_name py position_name index none = position_name (index + 1)
scenario_name py position_name index (some v) = text_of py v

-- item.get("inputs") or {}
scenario_inputs : Option Value → Value
scenario_inputs none = obj end
scenario_inputs (some v) = if truthy v then v else obj end

named_items : Runtime → (ℕ → String) → ℕ → Items → List (String × Value)
unfolding scenario_name scenario_inputs
named_items py position_name index nil = []
named_items py position_name index (cons (obj fs) rest) =
    (
      scenario_name py position_name index (field_at "name" fs),
      scenario_inputs (field_at "inputs" fs),
    )
    ∷ named_items py position_name (index + 1) rest
named_items py position_name index (cons _ rest) = named_items py position_name (index + 1) rest

pub data ItemsResult : Type 0 where
  items : List (String × Value) → ItemsResult
  refused : ScenarioError → ItemsResult

limited : List (String × Value) → ItemsResult
limited xs =
    if ltb 20 (length xs)
    then refused too_many_scenarios
    else if any (λ x. not (is_object x.1)) xs
    then refused not_inputs
    else items xs

unfoldable pub scenario_items : Runtime → (ℕ → String) → Value → ItemsResult
unfolding named_fields named_items limited
scenario_items py position_name null = items []
scenario_items py position_name (obj fs) = limited (named_fields fs)
scenario_items py position_name (arr xs) = limited (named_items py position_name 0 xs)
scenario_items py position_name _ = refused not_scenarios

pub record BranchResult : Type 0 where
  pub node_key : String
  pub canvas_line : ℕ
  pub role : Role
  pub condition : String
  pub result : Tri
  pub unresolved : List String

-- The state of a branch whose condition is evaluated, from `prior_no_match`.
abbrev pub match_result : Tri → Tri → Tri
match_result fails condition = fails
match_result holds condition = condition
match_result unknown fails = fails
match_result unknown _ = unknown

-- `prior_no_match` after it.
abbrev pub still_no_match : Tri → Tri → Tri
still_no_match holds holds = fails
still_no_match holds fails = holds
still_no_match holds unknown = unknown
still_no_match unknown holds = fails
still_no_match prior condition = prior

abbrev pub activated : Tri → Tri → Tri
activated fails result = fails
activated unknown holds = unknown
activated activation result = result

abbrev branch_result : Branch → Tri → List String → BranchResult
branch_result b result unresolved = record {
  node_key = b.ref.node_key;
  canvas_line = b.ref.canvas_line;
  role = b.role;
  condition = b.condition;
  result = result;
  unresolved = unresolved;
}

-- The loop over the branches of a block, from `prior_no_match` on.
unfoldable pub branch_results : Runtime → Dict Value → Tri → Tri → List Branch → List BranchResult
branch_results py inputs activation prior [] = []
branch_results py inputs activation prior (b ∷ bs) =
    let e = evaluate_condition py inputs b.condition_ast in
    branch_result b
      (activated activation (if is_else_role b.role then prior else match_result prior e.result))
      (if is_else_role b.role then [] else e.unresolved)
    ∷ branch_results py inputs activation
        (if is_else_role b.role then prior else still_no_match prior e.result) bs

abbrev states_of : List String → Dict Tri → List Tri
states_of [] results = []
states_of (key ∷ path) results = value_or unknown (lookup key results) ∷ states_of path results

abbrev has_state : Tri → List Tri → Bool
has_state t [] = false
has_state t (x ∷ xs) = same_tri t x || has_state t xs

unfoldable pub block_activation : List Tri → Tri
block_activation states =
    if has_state fails states then fails else if has_state unknown states then unknown else holds

record_results : List BranchResult → Dict Tri → Dict Tri
record_results [] active = active
record_results (r ∷ rs) active = record_results rs (insert r.node_key r.result active)

abbrev pub hits : List BranchResult → List BranchResult
hits [] = []
hits (r ∷ rs) = let rest = hits rs in if same_tri holds r.result then r ∷ rest else rest

abbrev only {ℓ} : {A : Type ℓ} → List A → Option A
only (x ∷ []) = some x
only _ = none

-- `path_result` is "resolved" where `hit_branch` is there.
pub record BlockResult : Type 0 where
  pub group_key : String
  pub block_id : BlockId
  pub family : Family
  pub branches : List BranchResult
  pub hit_branch : Option BranchResult

last_is : String → List String → Bool
last_is key [] = false
last_is key (x ∷ []) = x == key
last_is key (x ∷ y ∷ path) = last_is key (y ∷ path)

-- The nodes of a body that stand directly in the branch `key`; `index` is the position of the first.
reachable_in : String → ℕ → ℕ → ℕ → List Node → List Meta → List NodeRef
unfolding last_is
reachable_in key first limit index (n ∷ nodes) (m ∷ ms) =
    let rest = reachable_in key first limit (index + 1) nodes ms in
    if leb first index && ltb index limit && last_is key m.enclosing_path
    then node_ref index n ∷ rest
    else rest
reachable_in key first limit index nodes ms = []

-- One past the last index of the branch's body.
abbrev body_limit : Branch → ℕ
body_limit b = elim b.body_end [ none ↦ b.body_start | some last ↦ last + 1 ]

reachable_of : Analysis → List Branch → List BranchResult → List NodeRef
unfolding reachable_in
reachable_of a (b ∷ bs) (r ∷ rs) =
    (if same_tri holds r.result
      then reachable_in b.ref.node_key b.body_start (body_limit b) 0 a.nodes a.metadata
      else [])
    ++ reachable_of a bs rs
reachable_of a bs rs = []

abbrev member : ℕ → List ℕ → Bool
member n = any (nat_beq n)

-- Blocks outside the selection are passed over; `none` selects all.
in_selection : Option (List ℕ) → Analysis → Block → Bool
in_selection none a block = true
in_selection (some indices) a block =
    member block.span_start indices && member (value_or (length a.nodes - 1) block.span_end) indices

abbrev is_try : Family → Bool
is_try try_block = true
is_try _ = false

path_at : ℕ → List Meta → List String
path_at i [] = []
path_at zero (m ∷ ms) = m.enclosing_path
path_at (suc i) (m ∷ ms) = path_at i ms

-- What is collected over the blocks of a scenario; `active` is reset for each group.
pub record Progress : Type 0 where
  pub blocks : List BlockResult
  pub reachable : List NodeRef
  pub unresolved : List String
  pub active : Dict Tri

abbrev unresolved_of : List BranchResult → List String
unresolved_of [] = []
unresolved_of (r ∷ rs) = r.unresolved ++ unresolved_of rs

evaluated_block : Runtime → Dict Value → Analysis → Block → Progress → Progress
unfolding branch_results block_activation record_results reachable_of path_at
evaluated_block py inputs a block p =
    let activation =
      block_activation (states_of (path_at block.root.internal_index a.metadata) p.active) in
    let rs = branch_results py inputs activation holds block.branches in
    record {
      blocks =
          p.blocks
          ++ record {
            group_key = a.group_key;
            block_id = block.block_id;
            family = block.family;
            branches = rs;
            hit_branch = only (hits rs);
          }
            ∷ [];
      reachable = p.reachable ++ reachable_of a block.branches rs;
      unresolved = p.unresolved ++ unresolved_of rs;
      active = record_results rs p.active;
    }

evaluate_blocks :
    Runtime → Dict Value → Option (List ℕ) → Analysis → List Block → Progress → Progress
unfolding in_selection evaluated_block
evaluate_blocks py inputs selection a [] p = p
evaluate_blocks py inputs selection a (block ∷ rest) p =
    evaluate_blocks py inputs selection a rest (
      if in_selection selection a block && not (is_try block.family)
      then evaluated_block py inputs a block p
      else p)

evaluate_groups : Runtime → Dict Value → Dict (List ℕ) → List Analysis → Progress → Progress
unfolding evaluate_blocks
evaluate_groups py inputs selected [] p = p
evaluate_groups py inputs selected (a ∷ groups) p =
    evaluate_groups py inputs selected groups (
      evaluate_blocks py inputs (lookup a.group_key selected) a a.blocks (record p { active = [] }))

pub record Scenario : Type 0 where
  pub name : String
  pub blocks : List BlockResult
  pub unresolved_inputs : List String
  pub reachable : List NodeRef

-- One named set of inputs.
unfoldable pub evaluate_scenario :
    Runtime → Dict (List ℕ) → List Analysis → String → Dict Value → Scenario
unfolding evaluate_groups distinct
evaluate_scenario py selected groups name inputs =
    let p =
      evaluate_groups py inputs selected groups
        (record { blocks = []; reachable = []; unresolved = []; active = [] }) in
    record {
      name = name;
      blocks = p.blocks;
      unresolved_inputs = distinct p.unresolved;
      reachable = p.reachable;
    }
