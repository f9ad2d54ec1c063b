-- ===== src/ControlFlow/Nesting/Views.antt =====
-- What the frames and blocks of the replay show of the open blocks (mcp/gxp_core/canvas.py).
use look_lowcode.Prelude.{
  ℕ, zero, suc, ◌-◌, ◌≤◌, ◌<◌, ◌≡◌, refl, ◌∙◌, ap, Bool, true, false, ◌||◌, inl, inr, Bool-cases,
  String, none, some, List, [], ◌∷◌, ◌++◌, map, length, modify, any, any-append, length-modify,
  ◌==◌, eq_iff, arith,
}
use look_lowcode.ControlFlow.Node.{
  Family, Node, opener_family, is_else_role, role, Marker, opener, branch, ender, plain, marker_of,
}
use look_lowcode.ControlFlow.Replay.{
  orphan_branch, duplicate_else, orphan_end, mismatched_end, missing_end, Warning, Branch, Block,
  BlockId, Frame, Visit, with_child, add_child, close_last, has_else, block_has_else, with_branch,
}
use look_lowcode.ControlFlow.Grammar.{Symbol, opens, closes, continues, text, Open}

-- The warnings that speak of how the markers nest.
abbrev pub is_structural : Warning → Bool
is_structural w = elim w.code [
  | orphan_branch ↦ true
  | duplicate_else ↦ true
  | orphan_end ↦ true
  | mismatched_end ↦ true
  | missing_end ↦ true
  | _ ↦ false
]

abbrev pub misnested : List Warning → Bool
misnested = any is_structural

abbrev pub symbol_at : Marker → Bool → Symbol
symbol_at (opener f) e = opens f
symbol_at (branch f) e = continues f e
symbol_at (ender f) e = closes f
symbol_at plain e = text

abbrev pub symbol_of : Node → Symbol
symbol_of node = symbol_at (marker_of node.element) (node.element == "Else")

abbrev pub views : List Block → List Frame → Open
views blocks fs = map (λ f. (f.family, block_has_else blocks f.block)) fs

-- The frames stand for different blocks of the list, the inner ones for later blocks.
abbrev pub Below : ℕ → List Frame → Type 0
Below n [] = Unit
Below n (f ∷ fs) = (f.block < n) × Below f.block fs

pub Below-le : (m n : ℕ) (fs : List Frame) → m ≤ n → Below m fs → Below n fs
Below-le m n [] h b = tt
Below-le m n (f ∷ fs) h b = (omega arith, b.1)

pub block_has_else-modify_ne :
    (blocks : List Block) (i j : ℕ) (g : Block → Block)
    → j < i
    → block_has_else (modify blocks i g) j ≡ block_has_else blocks j
block_has_else-modify_ne [] i j g h = refl
block_has_else-modify_ne (b ∷ bs) zero j g h = absurd (omega arith)
block_has_else-modify_ne (b ∷ bs) (suc i) zero g h = refl
block_has_else-modify_ne (b ∷ bs) (suc i) (suc j) g h =
    block_has_else-modify_ne bs i j g (omega arith)

pub block_has_else-append :
    (blocks : List Block) (b : Block) (j : ℕ)
    → j < length blocks
    → block_has_else (blocks ++ b ∷ []) j ≡ block_has_else blocks j
block_has_else-append [] b j h = elim h [ ]
block_has_else-append (c ∷ bs) b zero h = refl
block_has_else-append (c ∷ bs) b (suc j) h = block_has_else-append bs b j (omega arith)

pub block_has_else-end :
    (blocks : List Block) (b : Block)
    → block_has_else (blocks ++ b ∷ []) (length blocks) ≡ has_else b.branches
block_has_else-end [] b = refl
block_has_else-end (c ∷ bs) b = block_has_else-end bs b

pub block_has_else-child :
    (blocks : List Block) (i j : ℕ) (c : BlockId)
    → block_has_else (modify blocks i (with_child c)) j ≡ block_has_else blocks j
block_has_else-child [] i j c = refl
block_has_else-child (b ∷ bs) zero zero c = refl
block_has_else-child (b ∷ bs) zero (suc j) c = refl
block_has_else-child (b ∷ bs) (suc i) zero c = refl
block_has_else-child (b ∷ bs) (suc i) (suc j) c = block_has_else-child bs i j c

pub has_else-close_last : (k : ℕ) (bs : List Branch) → has_else (close_last k bs) ≡ has_else bs
has_else-close_last k [] = refl
has_else-close_last k (b ∷ []) = refl
has_else-close_last k (b ∷ c ∷ bs) =
    ap (λ t. is_else_role b.role || t) (has_else-close_last k (c ∷ bs))

pub block_has_else-branch :
    (blocks : List Block) (i : ℕ) (v : Visit)
    → i < length blocks
    → block_has_else (modify blocks i (with_branch v)) i
      ≡ (block_has_else blocks i || is_else_role (role v.node.element none))
block_has_else-branch [] i v h = elim h [ ]
block_has_else-branch (b ∷ bs) zero v h =
    any-append (λ br. is_else_role br.role) (close_last (v.index - 1) b.branches) _
    ∙ rw (has_else-close_last (v.index - 1) b.branches) (ground arith)
block_has_else-branch (b ∷ bs) (suc i) v h = block_has_else-branch bs i v (omega arith)

pub is_else_role-role : (e : String) → is_else_role (role e none) ≡ (e == "Else")
unfolding role
is_else_role-role e = elim (Bool-cases (e == "Else")) [
  | inl yes_else ↦ rw ((eq_iff e "Else").0 yes_else) refl
  | inr no_else ↦ ground arith
]

pub opener-not_else :
    (e : String) (f : Family) → opener_family e ≡ some f → is_else_role (role e (some f)) ≡ false
unfolding role opener_family
opener-not_else e f h = elim (Bool-cases (e == "Else")) [
  | inl yes_else ↦ absurd (cc (rw ((eq_iff e "Else").0 yes_else) at h))
  | inr no_else ↦ ground arith
]

pub views-modify :
    (blocks : List Block) (i : ℕ) (g : Block → Block) (fs : List Frame)
    → Below i fs
    → views (modify blocks i g) fs ≡ views blocks fs
views-modify blocks i g [] h = refl
views-modify blocks i g (f ∷ fs) h = rw (
  block_has_else-modify_ne blocks i f.block g h.0,
  views-modify blocks i g fs (Below-le f.block i fs (omega arith) h.1),
)

pub views-append :
    (blocks : List Block) (b : Block) (fs : List Frame)
    → Below (length blocks) fs
    → views (blocks ++ b ∷ []) fs ≡ views blocks fs
views-append blocks b [] h = refl
views-append blocks b (f ∷ fs) h = rw (
  block_has_else-append blocks b f.block h.0,
  views-append blocks b fs (Below-le f.block (length blocks) fs (omega arith) h.1),
)

pub views-child :
    (blocks : List Block) (i : ℕ) (c : BlockId) (fs : List Frame)
    → views (modify blocks i (with_child c)) fs ≡ views blocks fs
views-child blocks i c [] = refl
views-child blocks i c (f ∷ fs) =
    rw (block_has_else-child blocks i f.block c, views-child blocks i c fs)

pub views-add_child :
    (top : List Frame) (c : BlockId) (blocks : List Block) (fs : List Frame)
    → views (add_child top c blocks) fs ≡ views blocks fs
views-add_child [] c blocks fs = refl
views-add_child (f ∷ _) c blocks fs = views-child blocks f.block c fs

pub length-add_child :
    (top : List Frame) (c : BlockId) (blocks : List Block)
    → length (add_child top c blocks) ≡ length blocks
length-add_child [] c blocks = refl
length-add_child (f ∷ _) c blocks = length-modify blocks f.block (with_child c)
