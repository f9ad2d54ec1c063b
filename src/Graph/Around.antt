-- ===== src/Graph/Around.antt =====
-- The loop and the answer of `neighborhood` (mcp/gxp_core/business_graph_algorithms.py).
use look_lowcode.Prelude.{
  ℕ, zero, suc, ◌+◌, ◌≤◌, String, true, false, Option, some, List, [], ◌∷◌, pos, length,
  length-append, ltb, leb, one_of, Bool-cases, inl, inr, ◌≡◌, refl, ap, arith,
}
use look_lowcode.Outcome.{done}
use look_lowcode.Texts.Later.{length-sort_texts}
use look_lowcode.Graph.Adjacency.{Edge, Links, neighbors, adjacency}
use look_lowcode.Graph.Search.{next, outside, weight, weight-visit, length-outside}
use look_lowcode.Graph.Neighborhood.{
  Queued, Around, at_distance, grow_step, grow, first_edges, first_queue, Vicinity, vicinity,
  neighborhood,
}

length-at_distance : (d : ℕ) (xs : List String) → length (at_distance d xs) ≡ length xs
length-at_distance d [] = refl
length-at_distance d (x ∷ xs) = ap suc (length-at_distance d xs)

length-first_edges : (n : ℕ) (es : List Edge) → length (first_edges n es) ≤ n
length-first_edges zero es = omega arith
length-first_edges (suc n) [] = omega arith
length-first_edges (suc n) (e ∷ es) = grind (arith, length-first_edges n es)

-- What is left to do, and what may be selected.
abbrev Fits : Links → ℕ → ℕ → List Queued × Around → Type 0
Fits links max_nodes n (queue, a) =
    (length queue + weight a.selected links ≤ n) × (length a.selected ≤ max_nodes)

module _ (links : Links) (depth max_nodes : ℕ) where
  grow_step-Fits :
      (current : String) (distance : ℕ) (queue : List Queued) (a : Around) (n : ℕ)
      → length queue + weight a.selected links ≤ n
      → length a.selected ≤ max_nodes
      → Fits links max_nodes n (grow_step links depth max_nodes (current, distance) queue a)
  grow_step-Fits current distance queue a n left few =
      let fresh = outside (current ∷ a.selected) (next links current) in
      elim (Bool-cases (one_of current a.selected)) [
        | inl seen ↦ rw seen (left, few)
        | inr new ↦ elim (Bool-cases (leb max_nodes (length a.selected))) [
          | inl full ↦ rw (new, full) (left, few)
          | inr room ↦
              let less = weight-visit current a.selected links new in
              let some_more = length-outside (current ∷ a.selected) (neighbors current links) in
              elim (Bool-cases (ltb distance depth)) [
                | inl near ↦
                    rw (new, room, near)
                      (
                        grind (
                          arith,
                          less,
                          some_more,
                          left,
                          length-append queue (at_distance (suc distance) fresh),
                          length-at_distance (suc distance) fresh,
                        ),
                        ground (arith, room),
                      )
                | inr far ↦ rw (new, room, far) (omega (arith, less, left), ground (arith, room))
              ]
        ]
      ]

  grow_ends :
      (fuel : ℕ) (queue : List Queued) (a : Around)
      → length queue + weight a.selected links ≤ fuel
      → length a.selected ≤ max_nodes
      → (b : Around) × (grow links depth max_nodes fuel queue a ≡ some b)
        × (length b.selected ≤ max_nodes)
  unfolding grow
  grow_ends fuel [] a left few = (a, refl, few)
  grow_ends zero (q ∷ queue) a left few = absurd (omega (arith, left))
  grow_ends (suc fuel) ((current, distance) ∷ queue) a left few =
      let (rest_left, rest_few) =
        grow_step-Fits current distance queue a fuel (omega (arith, left)) few in
      grow_ends fuel (grow_step links depth max_nodes (current, distance) queue a).0
        (grow_step links depth max_nodes (current, distance) queue a).1 rest_left rest_few

-- For a depth of at most 5, `neighborhood` answers, with at most as many nodes and edges as are asked for.
pub neighborhood_answers :
    (nodes : List String) (edges : List Edge) (seeds : List String) (depth max_nodes max_edges : ℕ)
    (cursor : Option String)
    → depth ≤ 5
    → (v : Vicinity) × (neighborhood nodes edges seeds (pos depth) max_nodes max_edges cursor
        ≡ done v)
      × (length v.nodes ≤ max_nodes)
      × (length v.edges ≤ max_edges)
unfolding neighborhood
neighborhood_answers nodes edges seeds depth max_nodes max_edges cursor shallow =
    let links = adjacency nodes edges false true in
    let queue = first_queue nodes seeds in
    let begin : Around = record { selected = []; frontier = [] } in
    let (a, e, few) =
      grow_ends links depth max_nodes (length queue + weight [] links) queue begin (omega arith)
        (omega arith) in
    let admitted : leb depth 5 ≡ true = ground (arith, shallow) in
    (
      vicinity edges max_edges cursor a,
      rw (admitted, e) refl,
      omega (arith, few, length-sort_texts a.selected),
      length-first_edges max_edges _,
    )
