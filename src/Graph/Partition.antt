-- ===== src/Graph/Partition.antt =====
-- The groups of `components` of mcp/gxp_core/business_graph_algorithms.py are the classes of nodes that
-- reach each other.
use look_lowcode.Prelude.{
  String, Bool, true, false, ◌&&◌, ◌||◌, some, List, [], ◌∷◌, ◌==◌, eq_iff, one_of, Bool-cases,
  Option-cases, inl, inr, ◌↔◌, ◌≡◌, refl, sym, ◌∙◌, arith,
}
use text.Mathlib.Text.{is_lt}
use Prim.Native.String.{compare}
use look_lowcode.Texts.{insert_text, sort_texts}
use look_lowcode.Graph.Adjacency.{Edge, Links, adjacency}
use look_lowcode.Graph.Search.{outside, search, search_ends}
use look_lowcode.Graph.Reachable.{Reach, here, search_iff, one_of-outside}
use look_lowcode.Graph.Undirected.{adjacency-Symmetric, Symmetric, Reach-sym, Reach-trans}
use look_lowcode.Graph.Components.{
  keys, list_before, insert_group, sort_groups, fuel_of, components_from, components,
}

-- Whether a group holds both nodes.
abbrev pub both_in : String → String → List String → Bool
both_in u v g = one_of u g && one_of v g

abbrev pub together : String → String → List (List String) → Bool
together u v [] = false
together u v (g ∷ gs) = both_in u v g || together u v gs

one_of-insert_text :
    (x y : String) (ys : List String) → one_of x (insert_text y ys) ≡ one_of x (y ∷ ys)
unfolding insert_text
one_of-insert_text x y [] = refl
one_of-insert_text x y (z ∷ zs) = elim (Bool-cases (is_lt (compare y z))) [
  | inl first ↦ rw first refl
  | inr later ↦ rw later (ground (arith, one_of-insert_text x y zs))
]

one_of-sort_texts : (x : String) (ys : List String) → one_of x (sort_texts ys) ≡ one_of x ys
unfolding sort_texts
one_of-sort_texts x [] = refl
one_of-sort_texts x (y ∷ ys) =
    one_of-insert_text x y (sort_texts ys) ∙ ground (arith, one_of-sort_texts x ys)

together-insert_group :
    (u v : String) (g : List String) (gs : List (List String))
    → together u v (insert_group g gs) ≡ together u v (g ∷ gs)
unfolding insert_group
together-insert_group u v g [] = refl
together-insert_group u v g (h ∷ hs) = elim (Bool-cases (list_before g h)) [
  | inl first ↦ rw first refl
  | inr later ↦ rw later (ground (arith, together-insert_group u v g hs))
]

together-sort_groups :
    (u v : String) (gs : List (List String)) → together u v (sort_groups gs) ≡ together u v gs
unfolding sort_groups
together-sort_groups u v [] = refl
together-sort_groups u v (g ∷ gs) =
    together-insert_group u v g (sort_groups gs) ∙ ground (arith, together-sort_groups u v gs)

module _ (links : Links) where
  -- What one turn of the loop from a root that remains does.
  record Turn (root : String) (roots remaining : List String) (groups : List (List String))
      : Type 0 where
    found : List String
    rest : List (List String)
    searched : search links (fuel_of links) (root ∷ []) [] ≡ some found
    later : components_from links roots (outside found remaining) ≡ some rest
    made : groups ≡ sort_texts found ∷ rest

  turn :
      (root : String) (roots remaining : List String) (groups : List (List String))
      → components_from links (root ∷ roots) remaining ≡ some groups
      → one_of root remaining ≡ true
      → Turn root roots remaining groups
  unfolding components_from
  turn root roots remaining groups h old =
      elim (Option-cases (search links (fuel_of links) (root ∷ []) [])) [
        | inl dry ↦ absurd (cc (rw (old, dry) at h))
        | inr (found, searched) ↦
            elim (Option-cases (components_from links roots (outside found remaining))) [
              | inl short ↦ absurd (cc (rw (old, searched, short) at h))
              | inr (rest, later) ↦ record {
                found = found;
                rest = rest;
                searched = searched;
                later = later;
                made = cc (rw (old, searched, later) at h);
              }
            ]
      ]

  skipped :
      (root : String) (roots remaining : List String)
      → one_of root remaining ≡ false
      → components_from links (root ∷ roots) remaining ≡ components_from links roots remaining
  unfolding components_from
  skipped root roots remaining old = rw old refl

  module _ (symmetric : Symmetric links) where
    sound :
        (roots remaining : List String) (groups : List (List String)) (u v : String)
        → components_from links roots remaining ≡ some groups
        → together u v groups ≡ true
        → Reach links u v
    unfolding components_from
    sound [] remaining groups u v h k = absurd (ground arith)
    sound (root ∷ roots) remaining groups u v h k = elim (Bool-cases (one_of root remaining)) [
      | inr gone ↦ sound roots remaining groups u v (sym (skipped root roots remaining gone) ∙ h) k
      | inl old ↦
          let t = turn root roots remaining groups h old in
          elim (Bool-cases (both_in u v (sort_texts t.found))) [
            | inl joined ↦
                let at = search_iff links root (fuel_of links) t.found t.searched in
                Reach-trans
                  (Reach-sym symmetric ((at u).0 (ground (arith, one_of-sort_texts u t.found))))
                  ((at v).0 (ground (arith, one_of-sort_texts v t.found)))
            | inr other ↦
                sound roots (outside t.found remaining) t.rest u v t.later
                  (ground (arith, rw t.made at k))
          ]
    ]

  complete :
      (roots remaining : List String) (groups : List (List String)) (u v : String)
      → components_from links roots remaining ≡ some groups
      → one_of u roots ≡ true
      → one_of u remaining ≡ true
      → Reach links u v
      → together u v groups ≡ true
  complete [] remaining groups u v h k left walk = absurd (ground arith)
  complete (root ∷ roots) remaining groups u v h k left walk =
      elim (Bool-cases (one_of root remaining)) [
        | inr gone ↦
            complete roots remaining groups u v (sym (skipped root roots remaining gone) ∙ h)
              (elim (Bool-cases (u == root)) [
                | inl same ↦ absurd (cc (rw ((eq_iff u root).0 same) at left))
                | inr other ↦ ground arith
              ])
              left walk
        | inl old ↦
            let t = turn root roots remaining groups h old in
            let at = search_iff links root (fuel_of links) t.found t.searched in
            rw t.made (elim (Bool-cases (one_of u t.found)) [
              | inl in_u ↦
                  let in_v = (at v).1 (Reach-trans ((at u).0 in_u) walk) in
                  ground (arith, one_of-sort_texts u t.found, one_of-sort_texts v t.found)
              | inr out ↦
                  let started = (at root).1 here in
                  let later =
                    complete roots (outside t.found remaining) t.rest u v t.later
                      (elim (Bool-cases (u == root)) [
                        | inl same ↦ absurd (cc (rw ((eq_iff u root).0 same) at out))
                        | inr other ↦ ground arith
                      ])
                      (ground (arith, one_of-outside u t.found remaining)) walk in
                  ground arith
            ])
      ]

  ends :
      (roots remaining : List String)
      → (groups : List (List String)) × (components_from links roots remaining ≡ some groups)
  unfolding components_from
  ends [] remaining = ([], refl)
  ends (root ∷ roots) remaining = elim (Bool-cases (one_of root remaining)) [
    | inr gone ↦ rw gone (ends roots remaining)
    | inl old ↦
        let (found, searched) = search_ends links (fuel_of links) (root ∷ []) [] (omega arith) in
        let (rest, later) = ends roots (outside found remaining) in
        (sort_texts found ∷ rest, rw (old, searched, later) refl)
  ]

-- `components` ends with a result on every graph: the fuel of each search is enough.
pub components_ends :
    (nodes : List String) (edges : List Edge)
    → (groups : List (List String)) × (components nodes edges ≡ some groups)
unfolding components
components_ends nodes edges =
    let links = adjacency nodes edges false true in
    let (groups, h) = ends links (keys links) (keys links) in (sort_groups groups, rw h refl)

-- A node of the graph is in one group of `components` with another node exactly when a walk along the
-- edges, in either direction, leads from the one to the other.
pub components_iff :
    (nodes : List String) (edges : List Edge) (groups : List (List String)) (u v : String)
    → components nodes edges ≡ some groups
    → one_of u (keys (adjacency nodes edges false true)) ≡ true
    → (together u v groups ≡ true) ↔ Reach (adjacency nodes edges false true) u v
unfolding components
components_iff nodes edges groups u v h k =
    let links = adjacency nodes edges false true in
    let (raw, made) = ends links (keys links) (keys links) in
    let sorted : groups ≡ sort_groups raw = cc (rw made at h) in
    let same = together-sort_groups u v raw in
    (
      λ t.
          sound links (adjacency-Symmetric nodes edges false) (keys links) (keys links) raw u v made
            (ground (arith, rw sorted at t)),
      λ walk. rw sorted (same ∙ complete links (keys links) (keys links) raw u v made k k walk),
    )
