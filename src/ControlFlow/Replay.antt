-- ===== src/ControlFlow/Replay.antt =====
-- The replay loop of `analyze_group` (mcp/gxp_core/canvas.py): a frame holds the position of its
-- block in the list of blocks, where the source holds a reference to the dictionary.
mod State
pub use State.*
use look_lowcode.Prelude.{
  ℕ, zero, suc, ◌+◌, ◌-◌, String, Bool, true, false, ◌&&◌, ◌||◌, Option, none, some, List, [], ◌∷◌,
  ◌++◌, map, reverse, ◌==◌, length, modify, any, one_of, if◌then◌else◌,
}
use look_lowcode.Condition.Ast.{Ast}
use look_lowcode.ControlFlow.Node.{
  Family, family_eq, Node, NodeRef, node_ref, opener_family, has_marker, Role, is_else_role, role,
  Marker, opener, branch, ender, plain, marker_of,
}

-- The active node keys, outermost first.
abbrev pub expected_depth : List Frame → List String
expected_depth stack = reverse (map (λ f. f.active.node_key) stack)

abbrev pub same_texts : List String → List String → Bool
same_texts [] [] = true
same_texts (x ∷ xs) (y ∷ ys) = x == y && same_texts xs ys
same_texts _ _ = false

unfoldable pub depth_warnings : Option (List String) → List String → ℕ → Node → List Warning
depth_warnings none expected index node = []
depth_warnings (some stored) expected index node =
    if same_texts stored expected then [] else warning_at depth_drift error index node ∷ []

abbrev current_root : List Frame → Option NodeRef
current_root [] = none
current_root (f ∷ _) = some f.root

abbrev current_active : List Frame → Option NodeRef
current_active [] = none
current_active (f ∷ _) = some f.active

abbrev current_block_id : List Frame → Option BlockId
current_block_id [] = none
current_block_id (f ∷ _) = some f.block_id

unfoldable pub base_meta : Node → List Frame → Meta
base_meta node stack = record {
  role = role node.element (opener_family node.element);
  nesting_level = length stack;
  root_block = current_root stack;
  active_branch = current_active stack;
  matched_branch = none;
  matched_end = none;
  enclosing_path = expected_depth stack;
}

abbrev pub new_branch : ℕ → Node → Role → Branch
new_branch index node r = record {
  ref = node_ref index node;
  role = r;
  condition = node.condition;
  condition_ast = node.condition_ast;
  body_start = index + 1;
  body_end = none;
}

abbrev pub with_child : BlockId → Block → Block
with_child child b = record b { children = b.children ++ child ∷ [] }

abbrev pub add_child : List Frame → BlockId → List Block → List Block
add_child [] child blocks = blocks
add_child (f ∷ _) child blocks = modify blocks f.block (with_child child)

unfoldable pub new_block : Visit → Family → List Frame → Block
new_block v family stack = record {
  block_id = record {
    group = id_part v.group_key v.group_index;
    node = id_part v.node.key v.index;
  };
  family = family;
  root = node_ref v.index v.node;
  branches = new_branch v.index v.node (role v.node.element (some family)) ∷ [];
  end_ref = none;
  span_start = v.index;
  span_end = none;
  nesting_level = length stack;
  parent_block = current_block_id stack;
  children = [];
}

-- The arm of an opener: a new block and a new frame.
unfoldable pub on_opener : Visit → Family → Replay → Replay
unfolding base_meta new_block
on_opener v family s =
    let block = new_block v family s.stack in
    let root = node_ref v.index v.node in
    record s {
      metadata =
          s.metadata
          ++ record (base_meta v.node s.stack) { root_block = some root; active_branch = some root }
            ∷ [];
      blocks = add_child s.stack block.block_id s.blocks ++ block ∷ [];
      stack =
          record {
            family = family;
            root = root;
            active = root;
            block = length s.blocks;
            block_id = block.block_id;
          }
          ∷ s.stack;
    }

-- branches[-1]["body_end"] = end
abbrev pub close_last : ℕ → List Branch → List Branch
close_last at_index [] = []
close_last at_index (b ∷ []) = record b { body_end = some at_index } ∷ []
close_last at_index (b ∷ c ∷ bs) = b ∷ close_last at_index (c ∷ bs)

abbrev pub has_else : List Branch → Bool
has_else = any (λ b. is_else_role b.role)

abbrev pub block_has_else : List Block → ℕ → Bool
block_has_else [] i = false
block_has_else (b ∷ bs) zero = has_else b.branches
block_has_else (b ∷ bs) (suc i) = block_has_else bs i

-- An if-branch or try-branch with no open block of its family.
unfoldable pub orphan_branch_at : Visit → Replay → Replay
unfolding base_meta
orphan_branch_at v s = record s {
  warnings = s.warnings ++ warning_at orphan_branch error v.index v.node ∷ [];
  metadata =
      s.metadata ++ record (base_meta v.node s.stack) { role = role v.node.element none } ∷ [];
}

abbrev pub else_warnings : Bool → Visit → List Warning
else_warnings repeated v =
    if v.node.element == "Else" && repeated
    then warning_at duplicate_else error v.index v.node ∷ []
    else []

abbrev pub with_branch : Visit → Block → Block
with_branch v b = record b {
  branches =
      close_last (v.index - 1) b.branches
      ++ new_branch v.index v.node (role v.node.element none) ∷ [];
}

-- A branch marker that continues the innermost open block.
unfoldable pub attach_branch : Visit → Frame → List Frame → Replay → Replay
unfolding base_meta
attach_branch v f rest s =
    let r = role v.node.element none in
    let ref = node_ref v.index v.node in
    record {
      warnings = s.warnings ++ else_warnings (block_has_else s.blocks f.block) v;
      metadata =
          s.metadata
          ++ record (base_meta v.node s.stack) {
            role = r;
            nesting_level = length rest;
            root_block = some f.root;
            active_branch = some ref;
            matched_branch = some f.active;
            enclosing_path = expected_depth rest;
          }
            ∷ [];
      blocks = modify s.blocks f.block (with_branch v);
      stack = record f { active = ref } ∷ rest;
    }

unfoldable pub branch_on : List Frame → Family → Visit → Replay → Replay
unfolding orphan_branch_at attach_branch
branch_on [] expected v s = orphan_branch_at v s
branch_on (f ∷ rest) expected v s =
    if family_eq f.family expected then attach_branch v f rest s else orphan_branch_at v s

unfoldable pub on_branch : Visit → Family → Replay → Replay
unfolding branch_on
on_branch v expected s = branch_on s.stack expected v s

-- An end marker that no open block accepts.
unfoldable pub refuse_end : Code → Visit → Replay → Replay
unfolding base_meta
refuse_end code v s = record s {
  warnings = s.warnings ++ warning_at code error v.index v.node ∷ [];
  metadata = s.metadata ++ base_meta v.node s.stack ∷ [];
}

abbrev pub ref_key : Option NodeRef → String
ref_key none = ""
ref_key (some r) = r.node_key

-- Earlier nodes of the closed block learn its end: those under the same root, and its branch nodes.
unfoldable pub mark_ends : NodeRef → String → List String → List Meta → List Node → List Meta
mark_ends end_ref root_key participants [] nodes = []
mark_ends end_ref root_key participants (m ∷ ms) [] = m ∷ ms
mark_ends end_ref root_key participants (m ∷ ms) (n ∷ nodes) =
    (if ref_key m.root_block == root_key || one_of n.key participants
      then record m { matched_end = some end_ref }
      else m)
    ∷ mark_ends end_ref root_key participants ms nodes

abbrev pub branch_keys : List Block → ℕ → List String
branch_keys [] i = []
branch_keys (b ∷ bs) zero = map (λ br. br.ref.node_key) b.branches
branch_keys (b ∷ bs) (suc i) = branch_keys bs i

abbrev pub with_end : Visit → Block → Block
with_end v b = record b {
  end_ref = some (node_ref v.index v.node);
  span_end = some v.index;
  branches = close_last (v.index - 1) b.branches;
}

-- An end marker that closes the innermost open block.
unfoldable pub close_block : Visit → Frame → List Frame → Replay → Replay
unfolding base_meta mark_ends
close_block v f rest s =
    let ref = node_ref v.index v.node in
    record s {
      metadata =
          mark_ends ref f.root.node_key (branch_keys s.blocks f.block) s.metadata v.nodes
          ++ record (base_meta v.node s.stack) {
            role = role v.node.element none;
            nesting_level = length rest;
            root_block = some f.root;
            active_branch = some f.active;
            matched_branch = some f.active;
            matched_end = some ref;
            enclosing_path = expected_depth (f ∷ rest);
          }
            ∷ [];
      blocks = modify s.blocks f.block (with_end v);
      stack = rest;
    }

unfoldable pub end_on : List Frame → Family → Visit → Replay → Replay
unfolding refuse_end close_block
end_on [] expected v s = refuse_end orphan_end v s
end_on (f ∷ rest) expected v s =
    if family_eq f.family expected then close_block v f rest s else refuse_end mismatched_end v s

unfoldable pub on_end : Visit → Family → Replay → Replay
unfolding end_on
on_end v expected s = end_on s.stack expected v s

unfoldable pub plugin_warnings : Visit → List Warning
unfolding has_marker
plugin_warnings v =
    if has_marker (λ c. c.level_marker) v.node || has_marker (λ c. c.end_marker) v.node
    then warning_at unknown_plugin_block warning v.index v.node ∷ []
    else []

unfoldable pub on_plain : Visit → Replay → Replay
unfolding plugin_warnings base_meta
on_plain v s = record s {
  warnings = s.warnings ++ plugin_warnings v;
  metadata = s.metadata ++ base_meta v.node s.stack ∷ [];
}

unfoldable pub handle : Marker → Visit → Replay → Replay
unfolding on_opener on_branch on_end on_plain
handle (opener family) v s = on_opener v family s
handle (branch family) v s = on_branch v family s
handle (ender family) v s = on_end v family s
handle plain v s = on_plain v s

-- One round of the loop over the nodes.
unfoldable pub visit : Visit → Replay → Replay
unfolding depth_warnings marker_of handle
visit v s = handle (marker_of v.node.element) v (record s {
  warnings = s.warnings ++ depth_warnings v.node.depth (expected_depth s.stack) v.index v.node;
})

-- `todo` is what is left of `nodes`, from `index` on.
unfoldable pub replay : String → ℕ → List Node → ℕ → List Node → Replay → Replay
unfolding visit
replay group_key group_index nodes index [] s = s
replay group_key group_index nodes index (node ∷ todo) s =
    replay group_key group_index nodes (index + 1) todo (
      visit
        (record {
          group_key = group_key;
          group_index = group_index;
          nodes = nodes;
          index = index;
          node = node;
        })
        s)
