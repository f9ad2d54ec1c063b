-- ===== src/Graph/Undirected.antt =====
-- The links that `adjacency` makes: undirected ones are symmetric, and their keys are the nodes
-- (mcp/gxp_core/business_graph_algorithms.py).

use look_lowcode.Prelude.{
  String, Bool, true, false, ◌&&◌, ◌||◌, List, [], ◌∷◌, ◌++◌, ◌==◌, eq_iff, one_of, Bool-cases, inl,
  inr, ◌≡◌, refl, sym, ◌∙◌, arith,
}
use look_lowcode.Dict.{lookup, insert, lookup-insert}
use look_lowcode.Graph.Adjacency.{
  Edge, Neighbor, Links, neighbors, has_node, no_links, push, add_link, add_edge, add_edges, before,
  insert_neighbor, sort_neighbors, sort_all, adjacency,
}
use look_lowcode.Graph.Search.{names, next}
use look_lowcode.Graph.Reachable.{Reach, here, step}

-- Whether `w` is a neighbour of `v`.
abbrev pub linked : Links → String → String → Bool
linked links v w = one_of w (next links v)

abbrev pub Symmetric : Links → Type 0
Symmetric links = (v w : String) → linked links v w ≡ linked links w v

pub eq_sym : (a b : String) → (a == b) ≡ (b == a)
eq_sym a b = ground (arith, eq_iff a b, eq_iff b a)

names-append :
    (w : String) (ns ms : List Neighbor)
    → one_of w (names (ns ++ ms)) ≡ (one_of w (names ns) || one_of w (names ms))
names-append w [] ms = refl
names-append w ((v, e) ∷ ns) ms = ground (arith, names-append w ns ms)

linked-push :
    (s t e : String) (links : Links) (v w : String)
    → linked (push s (t, e) links) v w ≡ (linked links v w || (s == v && w == t))
unfolding push
linked-push s t e links v w =
    rw (lookup-insert s v (neighbors s links ++ (t, e) ∷ []) links) (elim (Bool-cases (s == v)) [
      | inl same ↦
          rw (same, ← (eq_iff s v).0 same)
            (names-append w (neighbors s links) ((t, e) ∷ []) ∙ ground arith)
      | inr other ↦ rw other (ground arith)
    ])

Symmetric-both :
    (s t e : String) (links : Links)
    → Symmetric links
    → Symmetric (push t (s, e) (push s (t, e) links))
Symmetric-both s t e links h v w = ground (
  arith,
  h v w,
  linked-push t s e (push s (t, e) links) v w,
  linked-push s t e links v w,
  linked-push t s e (push s (t, e) links) w v,
  linked-push s t e links w v,
  eq_sym s v,
  eq_sym w t,
  eq_sym t v,
  eq_sym w s,
  eq_sym s w,
  eq_sym v t,
  eq_sym t w,
  eq_sym v s,
)

Symmetric-add_link :
    (e s t : String) (links : Links) → Symmetric links → Symmetric (add_link true e s t links)
unfolding add_link
Symmetric-add_link e s t links h = elim (Bool-cases (has_node s links && has_node t links)) [
  | inl both ↦ rw both (Symmetric-both s t e links h)
  | inr lacking ↦ rw lacking h
]

Symmetric-add_edges :
    (reverse : Bool) (es : List Edge) (links : Links)
    → Symmetric links
    → Symmetric (add_edges reverse true es links)
unfolding add_edges add_edge
Symmetric-add_edges reverse [] links h = h
Symmetric-add_edges true (e ∷ es) links h =
    Symmetric-add_edges true es (add_link true e.id e.target e.source links)
      (Symmetric-add_link e.id e.target e.source links h)
Symmetric-add_edges false (e ∷ es) links h =
    Symmetric-add_edges false es (add_link true e.id e.source e.target links)
      (Symmetric-add_link e.id e.source e.target links h)

abbrev Bare : Links → Type 0
Bare links = (v w : String) → linked links v w ≡ false

Bare-no_links : (nodes : List String) (links : Links) → Bare links → Bare (no_links links nodes)
unfolding no_links
Bare-no_links [] links h = h
Bare-no_links (n ∷ nodes) links h = Bare-no_links nodes (insert n [] links) (λ v w.
    rw (lookup-insert n v [] links)
      (elim (Bool-cases (n == v)) [ inl same ↦ rw same refl | inr other ↦ rw other (h v w) ]))

names-insert :
    (w : String) (n : Neighbor) (ns : List Neighbor)
    → one_of w (names (insert_neighbor n ns)) ≡ one_of w (names (n ∷ ns))
unfolding insert_neighbor
names-insert w n [] = refl
names-insert w (v, e) ((u, f) ∷ ns) = elim (Bool-cases (before (v, e) (u, f))) [
  | inl first ↦ rw first refl
  | inr later ↦ rw later (ground (arith, names-insert w (v, e) ns))
]

names-sort :
    (w : String) (ns : List Neighbor) → one_of w (names (sort_neighbors ns)) ≡ one_of w (names ns)
unfolding sort_neighbors
names-sort w [] = refl
names-sort w ((v, e) ∷ ns) =
    names-insert w (v, e) (sort_neighbors ns) ∙ ground (arith, names-sort w ns)

linked-sort_all : (links : Links) (v w : String) → linked (sort_all links) v w ≡ linked links v w
unfolding sort_all lookup
linked-sort_all [] v w = refl
linked-sort_all ((k, ns) ∷ rest) v w = elim (Bool-cases (k == v)) [
  | inl same ↦ rw same (names-sort w ns)
  | inr other ↦ rw other (linked-sort_all rest v w)
]

-- Undirected links are symmetric.
pub adjacency-Symmetric :
    (nodes : List String) (edges : List Edge) (reverse : Bool)
    → Symmetric (adjacency nodes edges reverse true)
unfolding adjacency
adjacency-Symmetric nodes edges reverse v w =
    let links = add_edges reverse true edges (no_links [] nodes) in
    let bare = Bare-no_links nodes [] (λ x y. unfold lookup in refl) in
    linked-sort_all links v w
    ∙ Symmetric-add_edges reverse edges (no_links [] nodes) (λ x y. bare x y ∙ sym (bare y x)) v w
    ∙ sym (linked-sort_all links w v)

pub Reach-trans :
    {links : Links} {u v w : String} → Reach links u v → Reach links v w → Reach links u w
Reach-trans p here = p
Reach-trans p (step q h) = step (Reach-trans p q) h

pub Reach-sym : {links : Links} {u v : String} → Symmetric links → Reach links u v → Reach links v u
Reach-sym h here = here
Reach-sym {links} h (step {u} {w} p k) = Reach-trans (step here (h w u ∙ k)) (Reach-sym h p)
