-- ===== src/ControlFlow/Branches.antt =====
-- The branch states of a scenario against the if / else-if / else reading
-- (mcp/gxp_core/canvas.py, `_evaluate_scenarios`).
use look_lowcode.Prelude.{
  ℕ, suc, ◌≤◌, Bool, true, false, not, ◌&&◌, ◌||◌, List, [], ◌∷◌, length, ◌≡◌, refl, arith,
  if◌then◌else◌,
}
use look_lowcode.Dict.{Dict}
use look_lowcode.Json.{Runtime, Value}
use look_lowcode.Condition.Evaluate.{Tri, holds, fails, unknown, same_tri, evaluate_condition}
use look_lowcode.Condition.Meaning.{Agrees}
use look_lowcode.ControlFlow.Node.{is_else_role}
use look_lowcode.ControlFlow.Replay.{Branch}
use look_lowcode.ControlFlow.Scenario.{
  BranchResult, match_result, still_no_match, activated, branch_results, hits,
}

-- Which branches run: the first whose condition is true, or the Else that is reached.
unfoldable pub chosen : (Branch → Bool) → Bool → List Branch → List Bool
chosen truth still [] = []
chosen truth still (b ∷ bs) =
    let runs = still && (is_else_role b.role || truth b) in
    runs ∷ chosen truth (still && not runs) bs

-- An Else is the last branch.
abbrev pub ElseLast : List Branch → Type 0
ElseLast [] = Unit
ElseLast (b ∷ []) = Unit
ElseLast (b ∷ c ∷ bs) = (is_else_role b.role ≡ false) × ElseLast (c ∷ bs)

-- Each known state is the truth.
abbrev pub AllAgree : List BranchResult → List Bool → Type 0
AllAgree [] [] = Unit
AllAgree (r ∷ rs) (b ∷ bs) = Agrees r.result b × AllAgree rs bs
AllAgree _ _ = ⊥

Agrees-match :
    (prior condition : Tri) (still truth : Bool)
    → Agrees prior still
    → Agrees condition truth
    → Agrees (match_result prior condition) (still && truth)
Agrees-match fails c still truth p q = rw p refl
Agrees-match holds c still truth p q = rw p q
Agrees-match unknown holds still truth p q = tt
Agrees-match unknown fails still truth p q = ground arith
Agrees-match unknown unknown still truth p q = tt

Agrees-still :
    (prior condition : Tri) (still truth : Bool)
    → Agrees prior still
    → Agrees condition truth
    → Agrees (still_no_match prior condition) (still && not (still && truth))
Agrees-still holds holds still truth p q = ground arith
Agrees-still holds fails still truth p q = ground arith
Agrees-still holds unknown still truth p q = tt
Agrees-still unknown holds still truth p q = ground arith
Agrees-still unknown fails still truth p q = tt
Agrees-still unknown unknown still truth p q = tt
Agrees-still fails c still truth p q = rw p refl

Agrees-activated :
    (activation result : Tri) (active truth : Bool)
    → Agrees activation active
    → Agrees result truth
    → Agrees (activated activation result) (active && truth)
Agrees-activated fails r active truth p q = rw p refl
Agrees-activated holds r active truth p q = rw p q
Agrees-activated unknown holds active truth p q = tt
Agrees-activated unknown fails active truth p q = ground arith
Agrees-activated unknown unknown active truth p q = tt

abbrev pub masked : Bool → List Bool → List Bool
masked active [] = []
masked active (b ∷ bs) = (active && b) ∷ masked active bs

and_true : (b : Bool) → (b && true) ≡ b
and_true true = refl
and_true false = refl

Agrees-state :
    (is_else : Bool) (prior condition : Tri) (still truth : Bool)
    → Agrees prior still
    → Agrees condition truth
    → Agrees (if is_else then prior else match_result prior condition) (still && (is_else || truth))
Agrees-state true prior c still truth p q = rw (and_true still) p
Agrees-state false prior c still truth p q = Agrees-match prior c still truth p q

branches_agree :
    (py : Runtime) (inputs : Dict Value) (truth : Branch → Bool) (activation prior : Tri)
    (active still : Bool) (bs : List Branch)
    → ((b : Branch) → Agrees (evaluate_condition py inputs b.condition_ast).result (truth b))
    → Agrees activation active
    → Agrees prior still
    → ElseLast bs
    → AllAgree
        (branch_results py inputs activation prior bs)
        (masked active (chosen truth still bs))
unfolding branch_results chosen
branches_agree py inputs truth activation prior active still [] fits p q last = tt
branches_agree py inputs truth activation prior active still (b ∷ []) fits p q last = (
  Agrees-activated activation _ active _ p
      (Agrees-state (is_else_role b.role) prior _ still (truth b) q (fits b)),
  tt,
)
branches_agree py inputs truth activation prior active still (b ∷ c ∷ bs) fits p q (go_on, last) =
    rw go_on (
      Agrees-activated activation _ active _ p (Agrees-match prior _ still (truth b) q (fits b)),
      branches_agree py inputs truth activation
          (still_no_match prior (evaluate_condition py inputs b.condition_ast).result) active
          (still && not (still && truth b)) (c ∷ bs) fits p
          (Agrees-still prior _ still (truth b) q (fits b)) last,
    )

-- In an if chain whose Else stands last, each branch state that is known is the truth: the branch
-- runs exactly if its block is active, no earlier condition is true, and its own is or it is the Else.
pub branch_results-agree :
    (py : Runtime) (inputs : Dict Value) (truth : Branch → Bool) (activation : Tri) (active : Bool)
    (bs : List Branch)
    → ((b : Branch) → Agrees (evaluate_condition py inputs b.condition_ast).result (truth b))
    → Agrees activation active
    → ElseLast bs
    → AllAgree (branch_results py inputs activation holds bs) (masked active (chosen truth true bs))
branch_results-agree py inputs truth activation active bs fits p last =
    branches_agree py inputs truth activation holds active true bs fits p refl last

abbrev count : List Bool → ℕ
count [] = 0
count (true ∷ bs) = suc (count bs)
count (false ∷ bs) = count bs

count-chosen :
    (truth : Branch → Bool) (still : Bool) (bs : List Branch)
    → count (chosen truth still bs) ≤ (if still then 1 else 0)
unfolding chosen
count-chosen truth still [] = ground arith
count-chosen truth false (b ∷ bs) = count-chosen truth false bs
count-chosen truth true (b ∷ bs) =
    ground (arith, count-chosen truth (not (is_else_role b.role || truth b)) bs)

hits-le-count :
    (rs : List BranchResult) (bs : List Bool) (active : Bool)
    → AllAgree rs (masked active bs)
    → length (hits rs) ≤ count bs
hits-le-count [] [] active h = omega arith
hits-le-count (r ∷ rs) [] active h = absurd h
hits-le-count [] (b ∷ bs) active h = absurd h
hits-le-count (r ∷ rs) (true ∷ bs) active h = ground (arith, hits-le-count rs bs active)
hits-le-count (r ∷ rs) (false ∷ bs) active h = ground (arith, hits-le-count rs bs active)

abbrev pub is_holds : Tri → Bool
is_holds t = same_tri holds t

pub Agrees-is_holds : (t : Tri) → Agrees t (is_holds t)
Agrees-is_holds holds = refl
Agrees-is_holds fails = refl
Agrees-is_holds unknown = tt

-- In an if chain whose Else stands last, a scenario never marks two branches as hit.
pub hits_le_one :
    (py : Runtime) (inputs : Dict Value) (activation : Tri) (bs : List Branch)
    → ElseLast bs
    → length (hits (branch_results py inputs activation holds bs)) ≤ 1
hits_le_one py inputs activation bs last =
    let truth = λ (b : Branch). is_holds (evaluate_condition py inputs b.condition_ast).result in
    omega (
      arith,
      count-chosen truth true bs,
      hits-le-count (branch_results py inputs activation holds bs) (chosen truth true bs)
          (is_holds activation)
          (branch_results-agree py inputs truth activation (is_holds activation) bs
            (λ b. Agrees-is_holds (evaluate_condition py inputs b.condition_ast).result)
            (Agrees-is_holds activation) last),
    )
