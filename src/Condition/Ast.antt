-- ===== src/Condition/Ast.antt =====
-- The trees that `condition_ast` builds (mcp/gxp_core/canvas.py).
use look_lowcode.Prelude.{String}
use look_lowcode.Json.{Value}

-- The dictionary that `_operand` builds.
pub record Operand : Type 0 where
  pub kind : String
  pub code : String
  pub label : String
  pub value : Value
  pub data_type : String
  pub object_attribute : String
  pub source_path : String

mutual
  pub data Ast : Type 0 where
    -- left, operator, right, data type, source path
    predicate : Operand → String → Operand → String → String → Ast
    -- logic, children, source path
    condition_group : String → Asts → String → Ast

  pub data Asts : Type 0 where
    none : Asts
    child : Ast → Asts → Asts
