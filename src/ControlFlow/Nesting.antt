-- ===== src/ControlFlow/Nesting.antt =====
-- The analyser reports no structural error exactly for the sequences of the grammar
-- (mcp/gxp_core/canvas.py, `analyze_group`).
mod Views
pub use Views.*
use look_lowcode.Prelude.{
  ℕ, zero, suc, ◌+◌, ◌-◌, ◌≤◌, ◌<◌, ◌≡◌, refl, sym, ◌∙◌, ap, Bool, true, false, not, ◌&&◌, ◌||◌,
  ◌↔◌, inl, inr, Bool-cases, String, Option, none, some, List, [], ◌∷◌, ◌++◌, map, reverse, length,
  modify, any, any-append, length-modify, length-append, ◌==◌, eq_iff, arith,
}
use look_lowcode.ControlFlow.Node.{
  Family, family_eq, Node, opener_family, is_else_role, role, Marker, opener, branch, ender, plain,
  marker_of, closing_marker, opener_or,
}
use look_lowcode.ControlFlow.Replay.{
  valid, Code, orphan_branch, duplicate_else, orphan_end, mismatched_end, missing_end, error,
  Warning, Branch, Block, BlockId, Frame, Replay, Visit, with_child, add_child, close_last,
  has_else, block_has_else, with_branch, with_end, new_block, on_opener, attach_branch,
  orphan_branch_at, on_branch, on_end, on_plain, refuse_end, close_block, plugin_warnings,
  else_warnings, depth_warnings, handle, visit, replay, branch_on, end_on, expected_depth,
}
use look_lowcode.ControlFlow.Group.{
  status_of, is_error, Group, analyze_group, start, finish, missing_end_at, missing_ends,
  key_counts, duplicate_warnings,
}
use mathlib.Core.List.{reverse-cons}
use look_lowcode.ControlFlow.Grammar.{
  Symbol, opens, closes, continues, text, WellNested, Open, accepts, accepts_iff, family_eq_refl,
  family_eq_sound,
}

-- Whether a replay from here will have reported a structural error.
abbrev verdict : Replay → List Symbol → Bool
verdict s w = misnested s.warnings || not (accepts w (views s.blocks s.stack))

abbrev Sound : Replay → Type 0
Sound s = Below (length s.blocks) s.stack

-- One arm of the loop reads one symbol.
abbrev Reads : Symbol → Replay → Replay → Type 0
Reads x s t = ((w : List Symbol) → verdict t w ≡ verdict s (x ∷ w)) × Sound t

misnested-append : (ws vs : List Warning) → misnested (ws ++ vs) ≡ (misnested ws || misnested vs)
misnested-append = any-append is_structural

on_opener-Reads :
    (v : Visit) (f : Family) (s : Replay)
    → opener_family v.node.element ≡ some f
    → Sound s
    → Reads (opens f) s (on_opener v f s)
unfolding on_opener accepts
on_opener-Reads v f s h sound = (
  λ w. rw (← length-add_child s.stack block_id s.blocks) (
      rw
        (
          block_has_else-end (add_child s.stack block_id s.blocks) (new_block v f s.stack),
          views-append (add_child s.stack block_id s.blocks) (new_block v f s.stack) s.stack below,
          views-add_child s.stack block_id s.blocks s.stack,
        )
        (rw (opener-not_else v.node.element f h) refl)),
  (
    omega (
      arith,
      length-append (add_child s.stack block_id s.blocks) (new_block v f s.stack ∷ []),
      length-add_child s.stack block_id s.blocks,
    ),
    sound,
  ),
)
  where
    block_id : BlockId
    block_id = (new_block v f s.stack).block_id

    below : Below (length (add_child s.stack block_id s.blocks)) s.stack
    below = rw (length-add_child s.stack block_id s.blocks) sound

orphan_branch-Reads :
    (v : Visit) (x : Symbol) (s : Replay)
    → ((w : List Symbol) → accepts (x ∷ w) (views s.blocks s.stack) ≡ false)
    → Sound s
    → Reads x s (orphan_branch_at v s)
unfolding orphan_branch_at
orphan_branch-Reads v x s h sound =
    (λ w. rw (misnested-append s.warnings _, h w) (ground arith), sound)

refuse_end-Reads :
    (code : Code) (v : Visit) (x : Symbol) (s : Replay)
    → misnested (
        record {
          code = code;
          severity = error;
          internal_index = none;
          node_key = none;
          node_type = none;
        }
        ∷ [])
      ≡ true
    → ((w : List Symbol) → accepts (x ∷ w) (views s.blocks s.stack) ≡ false)
    → Sound s
    → Reads x s (refuse_end code v s)
unfolding refuse_end
refuse_end-Reads code v x s c h sound =
    (λ w. rw (misnested-append s.warnings _, h w) (ground arith), sound)

misnested-else_warnings :
    (b : Bool) (v : Visit) → misnested (else_warnings b v) ≡ (v.node.element == "Else" && b)
misnested-else_warnings b v = ground arith

module _ (v : Visit) (f : Frame) (rest : List Frame) (s : Replay) (e : s.stack ≡ f ∷ rest)
    (sound : Sound s) where
  top : (f.block < length s.blocks) × Below f.block rest
  top = rw e at sound

  attach_branch-Reads :
      Reads (continues f.family (v.node.element == "Else")) s (attach_branch v f rest s)
  unfolding attach_branch accepts
  attach_branch-Reads = (
    λ w.
        rw
          (
            e,
            views-modify s.blocks f.block (with_branch v) rest top.1,
            block_has_else-branch s.blocks f.block v top.0,
            is_else_role-role v.node.element,
            family_eq_refl f.family,
            misnested-append s.warnings (else_warnings (block_has_else s.blocks f.block) v),
            misnested-else_warnings (block_has_else s.blocks f.block) v,
          )
          (ground arith),
    (omega (arith, length-modify s.blocks f.block (with_branch v), top.0), top.1),
  )

  close_block-Reads : Reads (closes f.family) s (close_block v f rest s)
  unfolding close_block accepts
  close_block-Reads = (
    λ w.
        rw (e, views-modify s.blocks f.block (with_end v) rest top.1, family_eq_refl f.family) refl,
    Below-le f.block (length (modify s.blocks f.block (with_end v))) rest
        (omega (arith, length-modify s.blocks f.block (with_end v), top.0)) top.1,
  )

-- The arm that an element takes reads the element's symbol.
module _ (v : Visit) (s : Replay) (sound : Sound s) where
  abbrev is_else : Bool
  is_else = v.node.element == "Else"

  refused :
      (x : Symbol) (o : Open)
      → views s.blocks s.stack ≡ o
      → ((w : List Symbol) → accepts (x ∷ w) o ≡ false)
      → (w : List Symbol) → accepts (x ∷ w) (views s.blocks s.stack) ≡ false
  refused x o e h w = rw e (h w)

  branch_on-Reads :
      (stack : List Frame) (f : Family)
      → s.stack ≡ stack
      → Reads (continues f is_else) s (branch_on stack f v s)
  unfolding branch_on
  branch_on-Reads [] f e =
      orphan_branch-Reads v (continues f is_else) s
        (refused (continues f is_else) [] (rw e refl) (λ w. unfold accepts in refl)) sound
  branch_on-Reads (g ∷ rest) f e = elim (Bool-cases (family_eq g.family f)) [
    | inl same ↦
        rw same (rw (← family_eq_sound g.family f same) (attach_branch-Reads v g rest s e sound))
    | inr other ↦ rw other (
        orphan_branch-Reads v (continues f is_else) s
          (refused (continues f is_else)
            ((g.family, block_has_else s.blocks g.block) ∷ views s.blocks rest) (rw e refl)
            (λ w. unfold accepts in rw other refl))
          sound)
  ]

  end_on-Reads :
      (stack : List Frame) (f : Family) → s.stack ≡ stack → Reads (closes f) s (end_on stack f v s)
  unfolding end_on
  end_on-Reads [] f e =
      refuse_end-Reads orphan_end v (closes f) s refl
        (refused (closes f) [] (rw e refl) (λ w. unfold accepts in refl)) sound
  end_on-Reads (g ∷ rest) f e = elim (Bool-cases (family_eq g.family f)) [
    | inl same ↦
        rw same (rw (← family_eq_sound g.family f same) (close_block-Reads v g rest s e sound))
    | inr other ↦ rw other (
        refuse_end-Reads mismatched_end v (closes f) s refl
          (refused (closes f) ((g.family, block_has_else s.blocks g.block) ∷ views s.blocks rest)
            (rw e refl) (λ w. unfold accepts in rw other refl))
          sound)
  ]

  on_plain-Reads : Reads text s (on_plain v s)
  unfolding on_plain plugin_warnings accepts
  on_plain-Reads = (λ w. rw (misnested-append s.warnings _) (ground arith), sound)

  handle-Reads :
      (m : Marker)
      → ((f : Family) → m ≡ opener f → opener_family v.node.element ≡ some f)
      → Reads (symbol_at m is_else) s (handle m v s)
  unfolding handle on_branch on_end
  handle-Reads (opener f) h = on_opener-Reads v f s (h f refl) sound
  handle-Reads (branch f) h = branch_on-Reads s.stack f refl
  handle-Reads (ender f) h = end_on-Reads s.stack f refl
  handle-Reads plain h = on_plain-Reads

closing-not_opener : (e : String) (f : Family) → closing_marker e ≡ opener f → ⊥
unfolding closing_marker
closing-not_opener e f h = ground arith

opener_of_choice :
    (o : Option Family) (e : String) (f : Family)
    → opener_or o (closing_marker e) ≡ opener f
    → o ≡ some f
opener_of_choice none e f h = absurd (closing-not_opener e f h)
opener_of_choice (some g) e f h = cc

opener_of_marker : (e : String) (f : Family) → marker_of e ≡ opener f → opener_family e ≡ some f
unfolding marker_of
opener_of_marker e f h = opener_of_choice (opener_family e) e f h

visit-Reads : (v : Visit) (s : Replay) → Sound s → Reads (symbol_of v.node) s (visit v s)
unfolding visit
visit-Reads v s sound =
    let (run, sound') =
      handle-Reads v (drifted v s) sound (marker_of v.node.element)
        (opener_of_marker v.node.element) in
    (λ w. run w ∙ drift_harmless v s (symbol_of v.node ∷ w), sound')
  where
    drifted : Visit → Replay → Replay
    drifted v s = record s {
      warnings = s.warnings ++ depth_warnings v.node.depth (expected_depth s.stack) v.index v.node;
    }

    drift_harmless :
        (v : Visit) (s : Replay) (w : List Symbol) → verdict (drifted v s) w ≡ verdict s w
    drift_harmless v s w =
        rw (misnested-append s.warnings _) (unfold depth_warnings in ground arith)

replay-reads :
    (key : String) (g : ℕ) (nodes : List Node) (i : ℕ) (todo : List Node) (s : Replay)
    → Sound s
    → (verdict (replay key g nodes i todo s) [] ≡ verdict s (map symbol_of todo))
unfolding replay
replay-reads key g nodes i [] s sound = refl
replay-reads key g nodes i (n ∷ todo) s sound =
    let v : Visit = record {
      group_key = key;
      group_index = g;
      nodes = nodes;
      index = i;
      node = n;
    } in
    let (run, sound') = visit-Reads v s sound in
    replay-reads key g nodes (i + 1) todo (visit v s) sound' ∙ run (map symbol_of todo)

misnested-missing_end :
    (i : ℕ) (o : Option Node) (ws : List Warning) → misnested (missing_end_at i o ∷ ws) ≡ true
misnested-missing_end i none ws = refl
misnested-missing_end i (some n) ws = refl

misnested-missing_ends :
    (nodes : List Node) (fs rest : List Frame) (f : Frame)
    → misnested (missing_ends nodes (fs ++ f ∷ rest)) ≡ true
unfolding missing_ends
misnested-missing_ends nodes [] rest f = misnested-missing_end _ _ (missing_ends nodes rest)
misnested-missing_ends nodes (g ∷ fs) rest f =
    misnested-missing_end _ _ (missing_ends nodes (fs ++ f ∷ rest))

open_frames_reported :
    (nodes : List Node) (blocks : List Block) (stack : List Frame)
    → misnested (missing_ends nodes (reverse stack)) ≡ not (accepts [] (views blocks stack))
unfolding accepts
open_frames_reported nodes blocks [] = unfold missing_ends in refl
open_frames_reported nodes blocks (f ∷ fs) =
    rw (reverse-cons f fs) (misnested-missing_ends nodes (reverse fs) [] f)

misnested-duplicates : (counts : List (String × ℕ)) → misnested (duplicate_warnings counts) ≡ false
unfolding duplicate_warnings
misnested-duplicates [] = refl
misnested-duplicates ((key, n) ∷ rest) =
    rw (misnested-append _ (duplicate_warnings rest), misnested-duplicates rest) (ground arith)

misnested-finish :
    (g : Group) (i : ℕ) (s : Replay) → misnested (finish g i s).warnings ≡ verdict s []
unfolding finish
misnested-finish g i s =
    misnested-append s.warnings (missing_ends g.nodes (reverse s.stack))
    ∙ rw (open_frames_reported g.nodes s.blocks s.stack)

misnested-analyze_group :
    (g : Group) (i : ℕ)
    → misnested (analyze_group g i).warnings ≡ not (accepts (map symbol_of g.nodes) [])
unfolding analyze_group start
misnested-analyze_group g i =
    misnested-finish g i (replay g.key i g.nodes 0 g.nodes (start g.nodes))
    ∙ replay-reads g.key i g.nodes 0 g.nodes (start g.nodes) tt
    ∙ rw (misnested-duplicates (key_counts [] g.nodes))

-- The warnings of a group are free of orphan branches, repeated Else branches, orphan, mismatched
-- and missing ends exactly if its markers form a word of the grammar of nested blocks.
pub structure_iff :
    (g : Group) (i : ℕ)
    → (misnested (analyze_group g i).warnings ≡ false) ↔ WellNested (map symbol_of g.nodes)
structure_iff g i =
    let e = misnested-analyze_group g i in
    let (to, from) = accepts_iff (map symbol_of g.nodes) in
    (λ h. to (ground arith), λ w. rw (e, from w))

status-warnings : (ws : List Warning) → status_of ws ≡ valid → misnested ws ≡ false
unfolding status_of
status-warnings [] h = refl
status-warnings (w ∷ ws) h = elim (Bool-cases (any is_error (w ∷ ws))) [
  | inl bad ↦ absurd (cc (rw bad at h))
  | inr fine ↦ absurd (cc (rw fine at h))
]

status-analyze_group :
    (g : Group) (i : ℕ) → (analyze_group g i).status ≡ status_of (analyze_group g i).warnings
unfolding analyze_group finish
status-analyze_group g i = refl

-- A group whose structure status is valid has its markers in the grammar of nested blocks.
pub valid-WellNested :
    (g : Group) (i : ℕ) → (analyze_group g i).status ≡ valid → WellNested (map symbol_of g.nodes)
valid-WellNested g i h =
    (structure_iff g i).0
      (status-warnings (analyze_group g i).warnings (sym (status-analyze_group g i) ∙ h))
