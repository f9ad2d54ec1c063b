-- ===== src/Graph/Trails.antt =====
-- The paths that `paths` of mcp/gxp_core/business_graph_algorithms.py should find, said of an answer's entities and
-- edges in their order, and the items of its queue, which keep them with the newest first.
use mathlib.Core.Path.{subst}
use mathlib.Core.List.{reverse-cons}
use look_lowcode.Prelude.{
  ℕ, ◌≤◌, ◌<◌, String, Bool, true, false, ◌&&◌, ◌||◌, Option, none, some, List, [], ◌∷◌, ◌++◌,
  reverse, length, length-append, ◌==◌, one_of, ◌≡◌, refl, sym, ◌∙◌, ap, arith,
}
use look_lowcode.Graph.Adjacency.{Neighbor, Links, neighbors}
use look_lowcode.Graph.Paths.{Item, Route, cyclic_path, extended}

abbrev pub has_link : Neighbor → List Neighbor → Bool
has_link n [] = false
has_link (v, e) ((w, f) ∷ ns) = (v == w && e == f) || has_link (v, e) ns

-- The entities are joined by the edges, from `start` on to `last`, and none comes twice.
pub data Trail (links : Links) (start : String) : List String → List String → String → Type 0 where
  begin : Trail links start (start ∷ []) [] start
  onward :
      {vs es : List String} {last : String} (w e : String)
      → Trail links start vs es last
      → has_link (w, e) (neighbors last links) ≡ true
      → one_of w vs ≡ false
      → Trail links start (vs ++ w ∷ []) (es ++ e ∷ []) w

-- A path of at most `depth` edges to the target, or, where none is asked for, to an entity without links, or a
-- shorter one with a link from its end back to one of its own entities.
pub data Genuine (links : Links) (start : String) (target : Option String) (depth : ℕ)
    : Route → Type 0 where
  reached :
      {vs es : List String} {last : String}
      → Trail links start vs es last
      → length es ≤ depth
      → target ≡ some last
      → Genuine links start target depth (record { entities = vs; edges = es; cycle = false })
  exhausted :
      {vs es : List String} {last : String}
      → Trail links start vs es last
      → length es ≤ depth
      → target ≡ none
      → neighbors last links ≡ []
      → Genuine links start target depth (record { entities = vs; edges = es; cycle = false })
  looped :
      {vs es : List String} {last : String} (w e : String)
      → Trail links start vs es last
      → length es < depth
      → target ≡ none
      → has_link (w, e) (neighbors last links) ≡ true
      → one_of w vs ≡ true
      → Genuine links start target depth
          (record { entities = vs ++ w ∷ []; edges = es ++ e ∷ []; cycle = true })

one_of-append :
    (w : String) (xs ys : List String) → one_of w (xs ++ ys) ≡ (one_of w xs || one_of w ys)
one_of-append w [] ys = refl
one_of-append w (x ∷ xs) ys = ground (arith, one_of-append w xs ys)

one_of-reverse : (w : String) (xs : List String) → one_of w (reverse xs) ≡ one_of w xs
one_of-reverse w [] = refl
one_of-reverse w (x ∷ xs) =
    ap (one_of w) (reverse-cons x xs)
    ∙ one_of-append w (reverse xs) (x ∷ [])
    ∙ rw (one_of-reverse w xs) (ground arith)

pub count-reverse : (xs : List String) → length (reverse xs) ≡ length xs
count-reverse [] = refl
count-reverse (x ∷ xs) =
    ap length (reverse-cons x xs)
    ∙ length-append (reverse xs) (x ∷ [])
    ∙ ground (arith, count-reverse xs)

-- The trail of an item of the queue, which keeps its path with the newest first.
abbrev pub Followed : Links → String → Item → Type 0
Followed links start i =
    Trail links start (reverse (i.current ∷ i.earlier)) (reverse i.edges) i.current

pub Followed-extended :
    (links : Links) (start : String) (i : Item) (n : Neighbor)
    → Followed links start i
    → has_link n (neighbors i.current links) ≡ true
    → one_of n.0 (i.current ∷ i.earlier) ≡ false
    → Followed links start (extended i n)
Followed-extended links start i (w, e) trail link new =
    subst (λ vs. Trail links start vs (reverse (e ∷ i.edges)) w)
      (sym (reverse-cons w (i.current ∷ i.earlier)))
      (subst (λ es. Trail links start (reverse (i.current ∷ i.earlier) ++ w ∷ []) es w)
        (sym (reverse-cons e i.edges))
        (onward w e trail link (one_of-reverse w (i.current ∷ i.earlier) ∙ new)))

pub Genuine-cyclic_path :
    (links : Links) (start : String) (target : Option String) (depth : ℕ) (i : Item) (n : Neighbor)
    → Followed links start i
    → length i.edges < depth
    → target ≡ none
    → has_link n (neighbors i.current links) ≡ true
    → one_of n.0 (i.current ∷ i.earlier) ≡ true
    → Genuine links start target depth (cyclic_path i n)
Genuine-cyclic_path links start target depth i (w, e) trail short free link old =
    subst
      (λ vs.
        Genuine links start target depth
          (record { entities = vs; edges = reverse (e ∷ i.edges); cycle = true }))
      (sym (reverse-cons w (i.current ∷ i.earlier)))
      (subst
        (λ es. Genuine links start target depth (record {
          entities = reverse (i.current ∷ i.earlier) ++ w ∷ [];
          edges = es;
          cycle = true;
        }))
        (sym (reverse-cons e i.edges))
        (looped w e trail (subst (λ k. k < depth) (sym (count-reverse i.edges)) short) free link
          (one_of-reverse w (i.current ∷ i.earlier) ∙ old)))
