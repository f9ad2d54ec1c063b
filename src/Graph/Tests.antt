-- ===== src/Graph/Tests.antt =====
-- The theorems about the graph algorithms at a small graph (mcp/gxp_core/business_graph_algorithms.py).
use look_lowcode.Prelude.{
  String, true, false, none, some, List, [], ◌∷◌, one_of, All, length, pos, ◌≤◌, ◌≡◌, refl, arith,
  ◌↔◌,
}
use look_lowcode.Dict.{lookup, insert}
use look_lowcode.Graph.Adjacency.{
  Edge, Links, adjacency, add_edges, add_edge, add_link, push, no_links, sort_all, sort_neighbors,
  insert_neighbor,
}
use look_lowcode.Graph.Search.{search, search_ends}
use look_lowcode.Graph.Reachable.{Reach, search_iff}
use look_lowcode.Graph.Undirected.{linked, adjacency-Symmetric}
use look_lowcode.Graph.Components.{keys, components, components_from, sort_groups, insert_group}
use look_lowcode.Texts.{insert_text, sort_texts, sorted_set}
use look_lowcode.Json.{int}
use look_lowcode.Graph.Paths.{Route, found, paths, walk, visit_item, scan, scan_one}
use look_lowcode.Graph.Trails.{Genuine}
use look_lowcode.Graph.Routes.{paths-Genuine}
use look_lowcode.Outcome.{done}
use look_lowcode.Graph.Neighborhood.{Vicinity, neighborhood}
use look_lowcode.Graph.Around.{neighborhood_answers}
use look_lowcode.Graph.Partition.{together, components_ends, components_iff}

abbrev edge : String → String → String → Edge
edge id source target = record {
  id = id;
  source = source;
  target = target;
  kind = "calls";
  data_binding = false;
}

abbrev nodes : List String
nodes = "a" ∷ "b" ∷ "c" ∷ "d" ∷ []

abbrev edges : List Edge
edges = edge "1" "b" "a" ∷ edge "2" "a" "d" ∷ edge "3" "a" "x" ∷ []

abbrev links : Links
links = adjacency nodes edges false true

links_run :
    links
    ≡ ("a", ("b", "1") ∷ ("d", "2") ∷ [])
      ∷ ("b", ("a", "1") ∷ [])
      ∷ ("c", [])
      ∷ ("d", ("a", "2") ∷ [])
      ∷ []
unfolding adjacency add_edges add_edge add_link push no_links sort_all sort_neighbors
    insert_neighbor lookup insert
links_run = refl

search_run : search links 5 ("a" ∷ []) [] ≡ some ("b" ∷ "d" ∷ "a" ∷ [])
unfolding links_run search
search_run = refl

components_run : components nodes edges ≡ some (("a" ∷ "b" ∷ "d" ∷ []) ∷ ("c" ∷ []) ∷ [])
unfolding search_run components components_from sort_groups insert_group sort_texts insert_text keys
components_run = refl

search_ends_example : (result : List String) × (search links 5 ("a" ∷ []) [] ≡ some result)
unfolding links_run
search_ends_example = search_ends links 5 ("a" ∷ []) [] (omega arith)

search_iff_example : (one_of "d" ("b" ∷ "d" ∷ "a" ∷ []) ≡ true) ↔ Reach links "a" "d"
search_iff_example = search_iff links "a" 5 ("b" ∷ "d" ∷ "a" ∷ []) search_run "d"

adjacency-Symmetric_example : linked links "b" "a" ≡ linked links "a" "b"
adjacency-Symmetric_example = adjacency-Symmetric nodes edges false "b" "a"

abbrev groups : List (List String)
groups = ("a" ∷ "b" ∷ "d" ∷ []) ∷ ("c" ∷ []) ∷ []

b_known : one_of "b" (keys links) ≡ true
unfolding links_run keys
b_known = refl

components_ends_example : (found : List (List String)) × (components nodes edges ≡ some found)
components_ends_example = components_ends nodes edges

components_iff_example : (together "b" "d" groups ≡ true) ↔ Reach links "b" "d"
components_iff_example = components_iff nodes edges groups "b" "d" components_run b_known

abbrev way : Route
way = record { entities = "b" ∷ "a" ∷ "d" ∷ []; edges = "1" ∷ "2" ∷ []; cycle = false }

paths_run :
    paths (λ n. true) nodes edges "b" (some "d") "downstream" (int (pos 8)) (int (pos 5))
    ≡ found (way ∷ []) [] false
unfolding links_run paths walk visit_item scan scan_one sorted_set
paths_run = refl

paths-Genuine_example :
    All (Genuine (adjacency nodes edges false false) "b" (some "d") 8) (way ∷ [])
    × (length (way ∷ []) ≤ 5)
paths-Genuine_example =
    paths-Genuine (λ n. true) nodes edges "b" (some "d") "downstream" (int (pos 8)) (int (pos 5)) 8
      5 (way ∷ []) [] false refl refl paths_run

neighborhood_answers_example :
    (v : Vicinity) × (neighborhood nodes edges ("b" ∷ []) (pos 1) 2 1 none ≡ done v)
    × (length v.nodes ≤ 2)
    × (length v.edges ≤ 1)
neighborhood_answers_example = neighborhood_answers nodes edges ("b" ∷ []) 1 2 1 none (omega arith)
