-- ===== src/Condition/Tests.antt =====
-- The theorems about conditions at a small condition (mcp/gxp_core/canvas.py).
use look_lowcode.Prelude.{
  pos, String, true, not, false, none, some, [], ◌∷◌, ◌-◌, ◌&&◌, leb, nat_beq, ◌==◌, ◌≡◌, ◌≢◌, refl,
  if◌then◌else◌,
}
use look_lowcode.Dict.{Dict, lookup}
use look_lowcode.Json.{
  Runtime, Value, null, int, str, arr, obj, nil, cons, end, field, value_eq, number_test,
}
use look_lowcode.Condition.Ast.{Operand, Ast, Asts, predicate, condition_group, child}
use look_lowcode.Condition.Evaluate.{
  holds, unknown, evaluate, evaluate_predicate, group_evaluation, group_result, resolve_operand,
  normal_operator, matched, candidates,
}
use look_lowcode.Condition.Build.{operand, predicate_of, filter_ast, condition_ast}
use look_lowcode.Condition.Meaning.{
  World, Fits, Agrees, meaning, decided, evaluate-Agrees, evaluate_decides,
}
use look_lowcode.Condition.Text.{truthy, compact, strip, reversed, text_of, literal, tail_name}
use look_lowcode.ControlFlow.Branches.{is_holds, Agrees-is_holds}

-- Python's library on the characters and texts that the tests use.
abbrev pub small_runtime : Runtime
small_runtime = record {
  is_space = λ c. nat_beq c 32;
  is_alnum = λ c. leb 48 c && leb c 122;
  digit = λ c. if leb 48 c && leb c 57 then some (c - 48) else none;
  lower = λ s. s;
  upper = λ s. s;
  str_of = λ v. "value";
  float_of = λ s. 0;
  float_test = λ t a b. false;
  encodable = λ s. not (s == "lone surrogate");
}

abbrev pub simple_operand : String → String → Operand
simple_operand kind code = record {
  kind = kind;
  code = code;
  label = "";
  value = null;
  data_type = "";
  object_attribute = "";
  source_path = "";
}

abbrev pub inputs : Dict Value
inputs = ("state", int (pos 2)) ∷ []

-- state = 2, and missing = state
abbrev pub is_two : Ast
is_two = predicate (simple_operand "variable" "state") "=" (simple_operand "custom" "2") "" ""

abbrev pub is_missing : Ast
is_missing =
    predicate (simple_operand "variable" "missing") "=" (simple_operand "variable" "state") "" ""

abbrev either : Ast
either = condition_group "OR" (child is_missing (child is_two Asts.none)) ""

abbrev world : World
world left operator right =
    is_holds (evaluate_predicate small_runtime inputs left operator right).result

world-Fits : Fits small_runtime inputs world
world-Fits left operator right =
    Agrees-is_holds (evaluate_predicate small_runtime inputs left operator right).result

either_holds : (evaluate small_runtime inputs either).result ≡ holds
unfolding evaluate evaluate_predicate group_evaluation group_result resolve_operand normal_operator
    matched candidates strip reversed text_of literal tail_name lookup value_eq number_test
either_holds = refl

evaluate-Agrees_example :
    Agrees (evaluate small_runtime inputs either).result (meaning small_runtime world either)
evaluate-Agrees_example = evaluate-Agrees small_runtime inputs world either world-Fits

is_two-decided : decided small_runtime inputs is_two ≡ true
unfolding either_holds decided
is_two-decided = refl

evaluate_decides_example : (evaluate small_runtime inputs is_two).result ≢ unknown
evaluate_decides_example = evaluate_decides small_runtime inputs is_two is_two-decided

-- {"Logic": "OR", "Filters": [{"target": "state", "equalTo": "=", "value": 2}]}
abbrev design : Value
design = obj (
    field "Logic" (str "OR") (
      field "Filters"
        (arr (
          cons
            (obj (
              field "target" (str "state")
                (field "equalTo" (str "=") (field "value" (int (pos 2)) end))))
            nil))
        end))

design_built :
    condition_ast small_runtime "condition" design
    ≡ some (
        condition_group "OR"
          (child
            (predicate
              (record {
                kind = "literal";
                code = "state";
                label = "";
                value = str "state";
                data_type = "";
                object_attribute = "";
                source_path = "condition.Filters[value].target";
              })
              "="
              (record {
                kind = "literal";
                code = "value";
                label = "";
                value = int (pos 2);
                data_type = "";
                object_attribute = "";
                source_path = "condition.Filters[value].value";
              })
              ""
              "condition.Filters[value]")
            Asts.none)
          "condition")
unfolding condition_ast filter_ast predicate_of operand text_of truthy compact
design_built = refl
