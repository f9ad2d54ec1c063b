-- ===== src/Graph/Search.antt =====
-- The search loop that `components` and the second pass of `strongly_connected` run from a root
-- (mcp/gxp_core/business_graph_algorithms.py): it ends, and finds what is reachable.
use mathlib.Core.List.{reverse-cons}
use look_lowcode.Prelude.{
  ℕ, zero, suc, ◌+◌, ◌≤◌, String, false, Option, none, some, List, [], ◌∷◌, ◌++◌, reverse, length,
  length-append, ◌==◌, eq_iff, eq_refl, one_of, Bool-cases, inl, inr, ◌≡◌, refl, arith,
  if◌then◌else◌,
}
use look_lowcode.Dict.{lookup}
use look_lowcode.Graph.Adjacency.{Neighbor, Links, neighbors}

abbrev pub names : List Neighbor → List String
names [] = []
names ((v, _) ∷ ns) = v ∷ names ns

abbrev pub next : Links → String → List String
next links v = names (neighbors v links)

-- (x for x in xs if x not in found)
abbrev pub outside : List String → List String → List String
outside found [] = []
outside found (x ∷ xs) = let rest = outside found xs in if one_of x found then rest else x ∷ rest

-- `pending` has its end first: `pop` takes the head, and `extend` puts the last neighbour in front.
-- `none` means that the fuel ran out.
unfoldable pub search : Links → ℕ → List String → List String → Option (List String)
search links fuel [] found = some found
search links zero (current ∷ pending) found = none
search links (suc fuel) (current ∷ pending) found =
    let skip = search links fuel pending found in
    let visit =
      search links fuel (reverse (outside (current ∷ found) (next links current)) ++ pending)
        (current ∷ found) in
    if one_of current found then skip else visit

-- The links of the nodes that are not found yet.
abbrev pub weight : List String → Links → ℕ
weight found [] = 0
weight found ((k, ns) ∷ rest) = (if one_of k found then 0 else length ns) + weight found rest

pub length-reverse : (xs : List String) → length (reverse xs) ≡ length xs
length-reverse [] = refl
length-reverse (x ∷ xs) =
    rw (reverse-cons x xs) (omega (arith, length-append (reverse xs) (x ∷ []), length-reverse xs))

pub length-outside :
    (found : List String) (ns : List Neighbor) → length (outside found (names ns)) ≤ length ns
length-outside found [] = omega arith
length-outside found ((v, e) ∷ ns) = ground (arith, length-outside found ns)

weight-le :
    (c : String) (found : List String) (links : Links)
    → weight (c ∷ found) links ≤ weight found links
weight-le c found [] = omega arith
weight-le c found ((k, ns) ∷ rest) = ground (arith, weight-le c found rest)

pub weight-visit :
    (c : String) (found : List String) (links : Links)
    → one_of c found ≡ false
    → weight (c ∷ found) links + length (neighbors c links) ≤ weight found links
unfolding lookup
weight-visit c found [] h = omega arith
weight-visit c found ((k, ns) ∷ rest) h = elim (Bool-cases (k == c)) [
  | inl same ↦ rw ((eq_iff k c).0 same, eq_refl c, h) (omega (arith, weight-le c found rest))
  | inr other ↦ rw other (ground (arith, weight-visit c found rest h))
]

-- With fuel for what is pending and for every link of a node not yet found, the search ends.
pub search_ends :
    (links : Links) (fuel : ℕ) (pending found : List String)
    → length pending + weight found links ≤ fuel
    → (result : List String) × (search links fuel pending found ≡ some result)
unfolding search
search_ends links zero [] found h = (found, refl)
search_ends links (suc fuel) [] found h = (found, refl)
search_ends links zero (c ∷ pending) found h = absurd (omega arith)
search_ends links (suc fuel) (c ∷ pending) found h = elim (Bool-cases (one_of c found)) [
  | inl old ↦ rw old (search_ends links fuel pending found (omega arith))
  | inr new ↦ rw new (
      search_ends links fuel (reverse (outside (c ∷ found) (next links c)) ++ pending) (c ∷ found) (
        omega (
          arith,
          length-append (reverse (outside (c ∷ found) (next links c))) pending,
          length-reverse (outside (c ∷ found) (next links c)),
          length-outside (c ∷ found) (neighbors c links),
          weight-visit c found links new,
        )))
]
