-- ===== src/ControlFlow/Group.antt =====
-- `analyze_group` and `analyze` as a whole (mcp/gxp_core/canvas.py): duplicate keys, the replay, the
-- blocks that are left open, and the status.
use look_lowcode.Prelude.{
  ℕ, zero, suc, ◌+◌, ◌-◌, String, Bool, true, false, Option, none, some, List, [], ◌∷◌, ◌++◌,
  reverse, ◌==◌, ltb, length, modify, any, if◌then◌else◌,
}
use look_lowcode.ControlFlow.Node.{Node}
use look_lowcode.ControlFlow.Replay.{
  duplicate_node_key, missing_end, error, warning, Warning, warning_at, Status, valid, partial,
  invalid, Block, Meta, Frame, Replay, close_last, replay,
}

-- key_counts[key] = key_counts.get(key, 0) + 1, the keys in order of first insertion
unfoldable pub bump : String → List (String × ℕ) → List (String × ℕ)
bump key [] = (key, 1) ∷ []
bump key ((k, n) ∷ rest) = if k == key then (k, n + 1) ∷ rest else (k, n) ∷ bump key rest

unfoldable pub key_counts : List (String × ℕ) → List Node → List (String × ℕ)
unfolding bump
key_counts counts [] = counts
key_counts counts (node ∷ nodes) =
    key_counts (if node.key == "" then counts else bump node.key counts) nodes

unfoldable pub duplicate_warnings : List (String × ℕ) → List Warning
duplicate_warnings [] = []
duplicate_warnings ((key, count) ∷ rest) =
    (if ltb 1 count
      then record {
        code = duplicate_node_key;
        severity = error;
        internal_index = none;
        node_key = none;
        node_type = none;
      }
        ∷ []
      else [])
    ++ duplicate_warnings rest

abbrev node_at : List Node → ℕ → Option Node
node_at [] i = none
node_at (n ∷ nodes) zero = some n
node_at (n ∷ nodes) (suc i) = node_at nodes i

-- The root of an open block stands in the group, so its node is found.
abbrev pub missing_end_at : ℕ → Option Node → Warning
missing_end_at index none = record {
  code = missing_end;
  severity = error;
  internal_index = some index;
  node_key = none;
  node_type = none;
}
missing_end_at index (some node) = warning_at missing_end error index node

unfoldable pub missing_ends : List Node → List Frame → List Warning
missing_ends nodes [] = []
missing_ends nodes (f ∷ fs) =
    missing_end_at f.root.internal_index (node_at nodes f.root.internal_index)
    ∷ missing_ends nodes fs

abbrev pub left_open : List Node → Block → Block
left_open nodes b = record b { branches = close_last (length nodes - 1) b.branches }

unfoldable pub close_open : List Node → List Frame → List Block → List Block
close_open nodes [] blocks = blocks
close_open nodes (f ∷ fs) blocks = close_open nodes fs (modify blocks f.block (left_open nodes))

abbrev pub is_error : Warning → Bool
is_error w = elim w.severity [ error ↦ true | warning ↦ false ]

abbrev partial_if_any : List Warning → Status
partial_if_any [] = valid
partial_if_any (_ ∷ _) = partial

unfoldable pub status_of : List Warning → Status
status_of warnings = if any is_error warnings then invalid else partial_if_any warnings

-- `status` stands for the structure status that the source copies into each node's and block's entry.
pub record Analysis : Type 0 where
  pub group_key : String
  pub group_title : String
  pub group_index : ℕ
  pub status : Status
  pub nodes : List Node
  pub metadata : List Meta
  pub blocks : List Block
  pub warnings : List Warning

pub record Group : Type 0 where
  pub key : String
  pub title : String
  pub nodes : List Node

unfoldable pub start : List Node → Replay
unfolding duplicate_warnings key_counts bump
start nodes = record {
  warnings = duplicate_warnings (key_counts [] nodes);
  metadata = [];
  blocks = [];
  stack = [];
}

unfoldable pub finish : Group → ℕ → Replay → Analysis
unfolding missing_ends close_open status_of
finish g index s =
    let warnings = s.warnings ++ missing_ends g.nodes (reverse s.stack) in
    record {
      group_key = g.key;
      group_title = g.title;
      group_index = index;
      status = status_of warnings;
      nodes = g.nodes;
      metadata = s.metadata;
      blocks = close_open g.nodes (reverse s.stack) s.blocks;
      warnings = warnings;
    }

unfoldable pub analyze_group : Group → ℕ → Analysis
analyze_group g index = finish g index (replay g.key index g.nodes 0 g.nodes (start g.nodes))

abbrev pub pairing_definitive : Status → Bool
pairing_definitive valid = true
pairing_definitive _ = false

analyze_groups : ℕ → List Group → List Analysis
unfolding analyze_group
analyze_groups index [] = []
analyze_groups index (g ∷ gs) = analyze_group g index ∷ analyze_groups (index + 1) gs

abbrev is_invalid : Analysis → Bool
is_invalid a = elim a.status [ invalid ↦ true | _ ↦ false ]

abbrev is_partial : Analysis → Bool
is_partial a = elim a.status [ partial ↦ true | _ ↦ false ]

unfoldable pub overall_status : List Analysis → Status
overall_status groups =
    if any is_invalid groups then invalid else if any is_partial groups then partial else valid

abbrev all_warnings : List Analysis → List Warning
all_warnings [] = []
all_warnings (a ∷ as_) = a.warnings ++ all_warnings as_

pub record Report : Type 0 where
  pub status : Status
  pub groups : List Analysis
  pub warnings : List Warning

unfoldable pub analyze : List Group → Report
unfolding analyze_groups overall_status
analyze groups =
    let analyses = analyze_groups 0 groups in
    record { status = overall_status analyses; groups = analyses; warnings = all_warnings analyses }
