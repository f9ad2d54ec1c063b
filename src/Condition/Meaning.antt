-- ===== src/Condition/Meaning.antt =====
-- Three-state evaluation never contradicts a two-state reading of the condition, and is decided where
-- every predicate is (mcp/gxp_core/canvas.py, `evaluate_condition_ast`).
use look_lowcode.Prelude.{
  String, Bool, true, false, not, ◌&&◌, ◌||◌, List, [], ◌∷◌, ◌≡◌, ◌≢◌, refl, ap, arith,
  if◌then◌else◌,
}
use look_lowcode.Dict.{Dict}
use look_lowcode.Json.{Runtime, Value}
use look_lowcode.Condition.Ast.{Operand, Ast, Asts, predicate, condition_group, child}
use look_lowcode.Condition.Evaluate.{
  Tri, holds, fails, unknown, Evaluation, evaluate_predicate, same_tri, has_result, all_results,
  group_result, group_evaluation, is_or, evaluate, evaluate_all,
}

-- A truth value for each comparison, as a running action would find it.
abbrev pub World : Type 0
World = Operand → String → Operand → Bool

-- What the condition means in a world: OR is "some child", any other logic "every child".
unfoldable mutual
  pub meaning : Runtime → World → Ast → Bool
  meaning py world (predicate left operator right data_type path) = world left operator right
  meaning py world (condition_group logic children path) =
      if is_or py logic then some_child py world children else every_child py world children

  pub some_child : Runtime → World → Asts → Bool
  some_child py world Asts.none = false
  some_child py world (child ast rest) = meaning py world ast || some_child py world rest

  pub every_child : Runtime → World → Asts → Bool
  every_child py world Asts.none = true
  every_child py world (child ast rest) = meaning py world ast && every_child py world rest

-- A known result is the truth value.
abbrev pub Agrees : Tri → Bool → Type 0
Agrees holds b = b ≡ true
Agrees fails b = b ≡ false
Agrees unknown b = Unit {0}

abbrev AgreeSome : List Evaluation → Bool → Type 0
AgreeSome es b = (has_result holds es ≡ true → b ≡ true) × (all_results fails es ≡ true → b ≡ false)

abbrev AgreeEvery : List Evaluation → Bool → Type 0
AgreeEvery es b =
    (has_result fails es ≡ true → b ≡ false) × (all_results holds es ≡ true → b ≡ true)

Agrees-or :
    (a b s : Bool)
    → (a ≡ true → s ≡ true)
    → (b ≡ true → s ≡ false)
    → Agrees (if a then holds else if b then fails else unknown) s
Agrees-or true b s p q = p refl
Agrees-or false true s p q = q refl
Agrees-or false false s p q = tt

Agrees-and :
    (a b s : Bool)
    → (a ≡ true → s ≡ false)
    → (b ≡ true → s ≡ true)
    → Agrees (if a then fails else if b then holds else unknown) s
Agrees-and true b s p q = p refl
Agrees-and false true s p q = q refl
Agrees-and false false s p q = tt

Agrees-group :
    (disjunction : Bool) (es : List Evaluation) (s e : Bool)
    → AgreeSome es s
    → AgreeEvery es e
    → Agrees (group_result disjunction es) (if disjunction then s else e)
unfolding group_result
Agrees-group true [] s e p q = tt
Agrees-group false [] s e p q = tt
Agrees-group true (x ∷ es) s e p q =
    Agrees-or (has_result holds (x ∷ es)) (all_results fails (x ∷ es)) s p.0 p.1
Agrees-group false (x ∷ es) s e p q =
    Agrees-and (has_result fails (x ∷ es)) (all_results holds (x ∷ es)) e q.0 q.1

AgreeSome-cons :
    (t : Tri) (names : List String) (es : List Evaluation) (b s : Bool)
    → Agrees t b
    → AgreeSome es s
    → AgreeSome (record { result = t; unresolved = names } ∷ es) (b || s)
AgreeSome-cons holds names es b s h p = (λ _. rw h refl, λ k. cc)
AgreeSome-cons fails names es b s h p = (λ k. ground (arith, p.0), λ k. ground (arith, p.1))
AgreeSome-cons unknown names es b s h p = (λ k. ground (arith, p.0), λ k. cc)

AgreeEvery-cons :
    (t : Tri) (names : List String) (es : List Evaluation) (b s : Bool)
    → Agrees t b
    → AgreeEvery es s
    → AgreeEvery (record { result = t; unresolved = names } ∷ es) (b && s)
AgreeEvery-cons holds names es b s h p = (λ k. ground (arith, p.0), λ k. ground (arith, p.1))
AgreeEvery-cons fails names es b s h p = (λ _. rw h refl, λ k. cc)
AgreeEvery-cons unknown names es b s h p = (λ k. ground (arith, p.0), λ k. cc)

-- A world that the known comparisons do not contradict.
abbrev pub Fits : Runtime → Dict Value → World → Type 0
Fits py inputs world =
    (left : Operand) (operator : String) (right : Operand)
    → Agrees (evaluate_predicate py inputs left operator right).result (world left operator right)

module _ (py : Runtime) (inputs : Dict Value) (world : World) (fits : Fits py inputs world) where
  mutual
    unfolding evaluate meaning group_evaluation

    agrees : (ast : Ast) → Agrees (evaluate py inputs ast).result (meaning py world ast)
    agrees (predicate left operator right data_type path) = fits left operator right
    agrees (condition_group logic children path) =
        Agrees-group (is_or py logic) (evaluate_all py inputs children)
          (some_child py world children) (every_child py world children) (agrees_some children)
          (agrees_every children)

    agrees_some :
        (children : Asts)
        → AgreeSome (evaluate_all py inputs children) (some_child py world children)
    agrees_some Asts.none = (λ k. cc, λ k. refl)
    agrees_some (child ast rest) =
        AgreeSome-cons (evaluate py inputs ast).result (evaluate py inputs ast).unresolved
          (evaluate_all py inputs rest) (meaning py world ast) (some_child py world rest)
          (agrees ast) (agrees_some rest)

    agrees_every :
        (children : Asts)
        → AgreeEvery (evaluate_all py inputs children) (every_child py world children)
    agrees_every Asts.none = (λ k. cc, λ k. refl)
    agrees_every (child ast rest) =
        AgreeEvery-cons (evaluate py inputs ast).result (evaluate py inputs ast).unresolved
          (evaluate_all py inputs rest) (meaning py world ast) (every_child py world rest)
          (agrees ast) (agrees_every rest)

-- Whatever the comparisons that stay unknown turn out to be, a result that is known is the truth
-- value of the whole condition.
pub evaluate-Agrees :
    (py : Runtime) (inputs : Dict Value) (world : World) (ast : Ast)
    → Fits py inputs world
    → Agrees (evaluate py inputs ast).result (meaning py world ast)
evaluate-Agrees py inputs world ast fits = agrees py inputs world fits ast

abbrev is_empty : Asts → Bool
is_empty Asts.none = true
is_empty (child _ _) = false

abbrev all_known : List Evaluation → Bool
all_known [] = true
all_known (e ∷ es) = not (same_tri unknown e.result) && all_known es

-- Every comparison is known, and no group is empty.
unfoldable mutual
  pub decided : Runtime → Dict Value → Ast → Bool
  decided py inputs (predicate left operator right data_type path) =
      not (same_tri unknown (evaluate_predicate py inputs left operator right).result)
  decided py inputs (condition_group logic children path) =
      not (is_empty children) && decided_all py inputs children

  pub decided_all : Runtime → Dict Value → Asts → Bool
  decided_all py inputs Asts.none = true
  decided_all py inputs (child ast rest) = decided py inputs ast && decided_all py inputs rest

known_or :
    (es : List Evaluation)
    → all_known es ≡ true
    → has_result holds es || all_results fails es ≡ true
known_or [] h = refl
known_or (x ∷ es) h = ground (arith, known_or es)

known_and :
    (es : List Evaluation)
    → all_known es ≡ true
    → has_result fails es || all_results holds es ≡ true
known_and [] h = refl
known_and (x ∷ es) h = ground (arith, known_and es)

group_known :
    (disjunction : Bool) (x : Evaluation) (es : List Evaluation)
    → all_known (x ∷ es) ≡ true
    → same_tri unknown (group_result disjunction (x ∷ es)) ≡ false
unfolding group_result
group_known true x es h = ground (arith, known_or (x ∷ es))
group_known false x es h = ground (arith, known_and (x ∷ es))

module _ (py : Runtime) (inputs : Dict Value) where
  mutual
    unfolding evaluate decided group_evaluation

    known :
        (ast : Ast)
        → decided py inputs ast ≡ true
        → same_tri unknown (evaluate py inputs ast).result ≡ false
    known (predicate left operator right data_type path) h = ground arith
    known (condition_group logic Asts.none path) h = cc
    known (condition_group logic (child ast rest) path) h =
        group_known (is_or py logic) (evaluate py inputs ast) (evaluate_all py inputs rest)
          (known_all (child ast rest) h)

    known_all :
        (children : Asts)
        → decided_all py inputs children ≡ true
        → all_known (evaluate_all py inputs children) ≡ true
    known_all Asts.none h = refl
    known_all (child ast rest) h = ground (arith, known ast, known_all rest)

-- A condition with no empty group whose comparisons are all known has a known result.
pub evaluate_decides :
    (py : Runtime) (inputs : Dict Value) (ast : Ast)
    → decided py inputs ast ≡ true
    → (evaluate py inputs ast).result ≢ unknown
evaluate_decides py inputs ast h e = cc (known py inputs ast h, ap (same_tri unknown) e)
