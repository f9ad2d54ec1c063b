-- ===== src/ControlFlow/Replay/State.antt =====
-- The state of the replay of `analyze_group` (mcp/gxp_core/canvas.py): warnings, blocks, the entries of
-- the nodes and the stack of open blocks.
use look_lowcode.Prelude.{ℕ, String, Option, some, List, ◌==◌, if◌then◌else◌}
use look_lowcode.Condition.Ast.{Ast}
use look_lowcode.ControlFlow.Node.{Family, Node, NodeRef, Role}

pub data Code : Type 0 where
  duplicate_node_key depth_drift orphan_branch duplicate_else orphan_end : Code
  mismatched_end unknown_plugin_block missing_end : Code

pub data Severity : Type 0 where
  error warning : Severity

-- The message text is left out; `canvas_line` is the index plus one.
pub record Warning : Type 0 where
  pub code : Code
  pub severity : Severity
  pub internal_index : Option ℕ
  pub node_key : Option String
  pub node_type : Option String

abbrev pub warning_at : Code → Severity → ℕ → Node → Warning
warning_at code severity index node = record {
  code = code;
  severity = severity;
  internal_index = some index;
  node_key = some node.key;
  node_type = some node.element;
}

pub data Status : Type 0 where
  valid partial invalid : Status

pub record Branch : Type 0 where
  pub ref : NodeRef
  pub role : Role
  pub condition : String
  pub condition_ast : Option Ast
  pub body_start : ℕ
  pub body_end : Option ℕ

-- `key or index`
pub data IdPart : Type 0 where
  name : String → IdPart
  position : ℕ → IdPart

abbrev pub id_part : String → ℕ → IdPart
id_part key index = if key == "" then position index else name key

pub record BlockId : Type 0 where
  pub group : IdPart
  pub node : IdPart

pub record Block : Type 0 where
  pub block_id : BlockId
  pub family : Family
  pub root : NodeRef
  pub branches : List Branch
  pub end_ref : Option NodeRef
  pub span_start : ℕ
  pub span_end : Option ℕ
  pub nesting_level : ℕ
  pub parent_block : Option BlockId
  pub children : List BlockId

pub record Meta : Type 0 where
  pub role : Role
  pub nesting_level : ℕ
  pub root_block : Option NodeRef
  pub active_branch : Option NodeRef
  pub matched_branch : Option NodeRef
  pub matched_end : Option NodeRef
  pub enclosing_path : List String

pub record Frame : Type 0 where
  pub family : Family
  pub root : NodeRef
  pub active : NodeRef
  pub block : ℕ
  pub block_id : BlockId

-- The stack has its top first.
pub record Replay : Type 0 where
  pub warnings : List Warning
  pub metadata : List Meta
  pub blocks : List Block
  pub stack : List Frame

-- The group that is replayed, and the loop's variables.
pub record Visit : Type 0 where
  pub group_key : String
  pub group_index : ℕ
  pub nodes : List Node
  pub index : ℕ
  pub node : Node
