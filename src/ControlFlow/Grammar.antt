-- ===== src/ControlFlow/Grammar.antt =====
-- What a well-nested sequence of block markers is, as a grammar that knows of no stack, and a
-- recogniser with a stack that decides it. The analyser is compared with both in `Nesting`.
use look_lowcode.Prelude.{
  ◌≡◌, refl, sym, ◌∙◌, ap, Bool, true, false, not, ◌&&◌, ◌||◌, ◌↔◌, List, [], ◌∷◌, ◌++◌, arith,
}
use mathlib.Core.Path.{subst}
use mathlib.Core.List.{append_assoc, append-nil}
use look_lowcode.ControlFlow.Node.{Family, if_block, loop_block, try_block, family_eq}

-- `continues f true` is an `Else`.
pub data Symbol : Type 0 where
  opens closes : Family → Symbol
  continues : Family → Bool → Symbol
  text : Symbol

mutual
  -- A sequence of statements and whole blocks.
  pub data Body : List Symbol → Type 0 where
    empty : Body []
    statement : {w : List Symbol} → Body w → Body (text ∷ w)
    block :
        {f : Family} {w : List Symbol} (u v : List Symbol)
        → Rest f false u
        → Body v
        → w ≡ u ++ v
        → Body (opens f ∷ w)

  -- What follows the opener of a block, up to its end: `e` says that an `Else` has been seen.
  pub data Rest : Family → Bool → List Symbol → Type 0 where
    close :
        {f : Family} {e : Bool} {w : List Symbol} (u : List Symbol)
        → Body u
        → w ≡ u ++ closes f ∷ []
        → Rest f e w
    continue :
        {f : Family} {e : Bool} {w : List Symbol} (d : Bool) (u v : List Symbol)
        → Body u
        → (d && e) ≡ false
        → Rest f (e || d) v
        → w ≡ u ++ continues f d ∷ v
        → Rest f e w

abbrev pub WellNested : List Symbol → Type 0
WellNested = Body

-- The open blocks, innermost first, each with whether it has an `Else`.
abbrev pub Open : Type 0
Open = List (Family × Bool)

pub family_eq_sound : (f g : Family) → family_eq f g ≡ true → f ≡ g
family_eq_sound if_block if_block h = refl
family_eq_sound loop_block loop_block h = refl
family_eq_sound try_block try_block h = refl
family_eq_sound _ _ h = cc

pub family_eq_refl : (f : Family) → family_eq f f ≡ true
family_eq_refl if_block = refl
family_eq_refl loop_block = refl
family_eq_refl try_block = refl

unfoldable pub accepts : List Symbol → Open → Bool
accepts [] [] = true
accepts [] (_ ∷ _) = false
accepts (text ∷ w) s = accepts w s
accepts (opens f ∷ w) s = accepts w ((f, false) ∷ s)
accepts (continues f d ∷ w) [] = false
accepts (continues f d ∷ w) ((g, e) ∷ s) =
    family_eq g f && (not (d && e) && accepts w ((g, e || d) ∷ s))
accepts (closes f ∷ w) [] = false
accepts (closes f ∷ w) ((g, e) ∷ s) = family_eq g f && accepts w s

-- A word of the grammar is read through and leaves the open blocks as they were.
mutual
  unfolding accepts

  Body-run :
      {w : List Symbol}
      → Body w
      → (rest : List Symbol) (s : Open) → accepts (w ++ rest) s ≡ accepts rest s
  Body-run empty rest s = refl
  Body-run (statement b) rest s = Body-run b rest s
  Body-run (block {f} u v r b e) rest s =
      rw (e, append_assoc u v rest) (Rest-run r (v ++ rest) s ∙ Body-run b rest s)

  Rest-run :
      {f : Family} {e : Bool} {w : List Symbol}
      → Rest f e w
      → (rest : List Symbol) (s : Open) → accepts (w ++ rest) ((f, e) ∷ s) ≡ accepts rest s
  Rest-run (close {f} {e} u b q) rest s =
      rw (q, append_assoc u (closes f ∷ []) rest)
        (Body-run b (closes f ∷ rest) ((f, e) ∷ s) ∙ rw (family_eq_refl f))
  Rest-run (continue {f} {e} d u v b h r q) rest s =
      rw (q, append_assoc u (continues f d ∷ v) rest)
        (Body-run b (continues f d ∷ v ++ rest) ((f, e) ∷ s)
          ∙ rw (family_eq_refl f, h) (Rest-run r rest s))

-- `w` finishes the open blocks one after the other.
abbrev Closes : Open → List Symbol → Type 0
Closes [] w = Body w
Closes ((f, e) ∷ s) w =
    (u : List Symbol) × (v : List Symbol) × (w ≡ u ++ v) × Rest f e u × Closes s v

Rest-statement : {f : Family} {e : Bool} {u : List Symbol} → Rest f e u → Rest f e (text ∷ u)
Rest-statement (close u b q) = close (text ∷ u) (statement b) (ap (◌∷◌ text) q)
Rest-statement (continue d u v b h r q) =
    continue d (text ∷ u) v (statement b) h r (ap (◌∷◌ text) q)

Rest-block :
    {f g : Family} {e : Bool} {u : List Symbol} (x : List Symbol)
    → Rest g false x
    → Rest f e u
    → Rest f e (opens g ∷ x ++ u)
Rest-block {g = g} x inner (close {f} u b q) =
    close (opens g ∷ x ++ u) (block x u inner b refl)
      (ap (◌∷◌ (opens g)) (ap (λ t. x ++ t) q ∙ sym (append_assoc x u (closes f ∷ []))))
Rest-block {g = g} x inner (continue {f} d u v b h r q) =
    continue d (opens g ∷ x ++ u) v (block x u inner b refl) h r
      (ap (◌∷◌ (opens g)) (ap (λ t. x ++ t) q ∙ sym (append_assoc x u (continues f d ∷ v))))

Closes-statement : (s : Open) (w : List Symbol) → Closes s w → Closes s (text ∷ w)
Closes-statement [] w b = statement b
Closes-statement ((f, e) ∷ s) w (u, v, q, r, c) =
    (text ∷ u, v, ap (◌∷◌ text) q, Rest-statement r, c)

Closes-opens :
    (g : Family) (s : Open) (w : List Symbol) → Closes ((g, false) ∷ s) w → Closes s (opens g ∷ w)
Closes-opens g [] w (u, v, q, r, b) = block u v r b q
Closes-opens g ((f, e) ∷ s) w (x, v, q, inner, (u, y, p, r, c)) = (
  opens g ∷ x ++ u,
  y,
  ap (◌∷◌ (opens g)) (q ∙ ap (λ t. x ++ t) p ∙ sym (append_assoc x u y)),
  Rest-block x inner r,
  c,
)

Closes-continues :
    (f g : Family) (d e : Bool) (s : Open) (w : List Symbol)
    → g ≡ f
    → (d && e) ≡ false
    → Closes ((g, e || d) ∷ s) w
    → Closes ((g, e) ∷ s) (continues f d ∷ w)
Closes-continues f g d e s w same once (u, v, q, r, c) =
    subst (λ x. Closes ((g, e) ∷ s) (continues x d ∷ w)) same
      (continues g d ∷ u, v, ap (◌∷◌ (continues g d)) q, continue d [] u empty once r refl, c)

Closes-closes :
    (f g : Family) (e : Bool) (s : Open) (w : List Symbol)
    → g ≡ f
    → Closes s w
    → Closes ((g, e) ∷ s) (closes f ∷ w)
Closes-closes f g e s w same c =
    subst (λ x. Closes ((g, e) ∷ s) (closes x ∷ w)) same
      (closes g ∷ [], w, refl, close [] empty refl, c)

Closes-of_accepts : (w : List Symbol) (s : Open) → accepts w s ≡ true → Closes s w
unfolding accepts
Closes-of_accepts [] [] h = empty
Closes-of_accepts [] ((f, e) ∷ s) h = cc
Closes-of_accepts (text ∷ w) s h = Closes-statement s w (Closes-of_accepts w s h)
Closes-of_accepts (opens f ∷ w) s h = Closes-opens f s w (Closes-of_accepts w ((f, false) ∷ s) h)
Closes-of_accepts (continues f d ∷ w) [] h = cc
Closes-of_accepts (continues f d ∷ w) ((g, e) ∷ s) h =
    Closes-continues f g d e s w (family_eq_sound g f (ground arith)) (ground arith)
      (Closes-of_accepts w ((g, e || d) ∷ s) (ground arith))
Closes-of_accepts (closes f ∷ w) [] h = cc
Closes-of_accepts (closes f ∷ w) ((g, e) ∷ s) h =
    Closes-closes f g e s w (family_eq_sound g f (ground arith))
      (Closes-of_accepts w s (ground arith))

-- The recogniser started with no open block decides the grammar.
pub accepts_iff : (w : List Symbol) → (accepts w [] ≡ true) ↔ WellNested w
unfolding accepts
accepts_iff w = (Closes-of_accepts w [], λ b. rw (← append-nil w) (Body-run b [] []))
