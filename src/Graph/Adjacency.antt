-- ===== src/Graph/Adjacency.antt =====
-- `project` and `adjacency` of mcp/gxp_core/business_graph_algorithms.py. A node is its id: the
-- algorithms read nothing else of it.
use Prim.Native.String.{compare}
use text.Mathlib.Text.{is_lt}
use look_lowcode.Prelude.{
  String, Bool, true, false, ◌&&◌, ◌||◌, Option, none, some, List, [], ◌∷◌, ◌++◌, ◌==◌, one_of,
  if◌then◌else◌,
}
use look_lowcode.Dict.{Dict, lookup, insert, value_or}

pub record Edge : Type 0 where
  pub id : String
  pub source : String
  pub target : String
  pub kind : String
  pub data_binding : Bool

abbrev data_kinds : List String
data_kinds = "generates" ∷ "writes" ∷ "reads" ∷ "transforms" ∷ "displays" ∷ "flows_to" ∷ []

abbrev pub carries_data : Edge → Bool
carries_data e = one_of e.kind data_kinds || (e.kind == "calls" && e.data_binding)

keep_data : List Edge → List Edge
keep_data [] = []
keep_data (e ∷ es) = let rest = keep_data es in if carries_data e then e ∷ rest else rest

-- `none` is GRAPH_INVALID_PROJECTION.
unfoldable pub project : List Edge → String → Option (List Edge)
unfolding keep_data
project edges projection =
    if projection == "business"
    then some edges
    else if projection == "data"
    then some (keep_data edges)
    else none

-- A neighbour and the edge that leads to it.
abbrev pub Neighbor : Type 0
Neighbor = String × String

abbrev pub Links : Type 0
Links = Dict (List Neighbor)

abbrev pub neighbors : String → Links → List Neighbor
neighbors v links = value_or [] (lookup v links)

abbrev pub has_node : String → Links → Bool
has_node v links = elim (lookup v links) [ none ↦ false | some _ ↦ true ]

-- {node["id"]: [] for node in nodes}
unfoldable pub no_links : Links → List String → Links
no_links links [] = links
no_links links (n ∷ nodes) = no_links (insert n [] links) nodes

-- result[source].append((target, edge))
unfoldable pub push : String → Neighbor → Links → Links
push source n links = insert source (neighbors source links ++ n ∷ []) links

unfoldable pub add_link : Bool → String → String → String → Links → Links
unfolding push
add_link undirected id source target links =
    if has_node source links && has_node target links
    then (let one_way = push source (target, id) links in
        if undirected then push target (source, id) one_way else one_way)
    else links

unfoldable pub add_edge : Bool → Bool → Edge → Links → Links
unfolding add_link
add_edge reverse undirected e links =
    if reverse
    then add_link undirected e.id e.target e.source links
    else add_link undirected e.id e.source e.target links

unfoldable pub add_edges : Bool → Bool → List Edge → Links → Links
unfolding add_edge
add_edges reverse undirected [] links = links
add_edges reverse undirected (e ∷ es) links =
    add_edges reverse undirected es (add_edge reverse undirected e links)

-- The order of Python's tuples of texts.
abbrev pub before : Neighbor → Neighbor → Bool
before (a, x) (b, y) = is_lt (compare a b) || (a == b && is_lt (compare x y))

unfoldable pub insert_neighbor : Neighbor → List Neighbor → List Neighbor
insert_neighbor n [] = n ∷ []
insert_neighbor n (m ∷ ms) = if before n m then n ∷ m ∷ ms else m ∷ insert_neighbor n ms

unfoldable pub sort_neighbors : List Neighbor → List Neighbor
unfolding insert_neighbor
sort_neighbors [] = []
sort_neighbors (n ∷ ns) = insert_neighbor n (sort_neighbors ns)

unfoldable pub sort_all : Links → Links
unfolding sort_neighbors
sort_all [] = []
sort_all ((k, ns) ∷ rest) = (k, sort_neighbors ns) ∷ sort_all rest

unfoldable pub adjacency : List String → List Edge → Bool → Bool → Links
unfolding sort_all add_edges no_links
adjacency nodes edges reverse undirected =
    sort_all (add_edges reverse undirected edges (no_links [] nodes))
