-- ===== src/Graph/Components.antt =====
-- `components` of mcp/gxp_core/business_graph_algorithms.py.
use Prim.Native.String.{compare}
use text.Mathlib.Text.{is_lt}
use look_lowcode.Prelude.{
  ℕ, suc, String, Bool, true, false, ◌&&◌, ◌||◌, Option, none, some, List, [], ◌∷◌, ◌==◌, one_of,
  if◌then◌else◌,
}
use look_lowcode.Texts.{sort_texts}
use look_lowcode.Graph.Adjacency.{Edge, Links, adjacency}
use look_lowcode.Graph.Search.{outside, search, weight}

unfoldable pub keys : Links → List String
keys [] = []
keys ((k, _) ∷ rest) = k ∷ keys rest

-- The order of Python's lists of texts.
abbrev pub list_before : List String → List String → Bool
list_before [] [] = false
list_before [] (_ ∷ _) = true
list_before (_ ∷ _) [] = false
list_before (x ∷ xs) (y ∷ ys) = is_lt (compare x y) || (x == y && list_before xs ys)

unfoldable pub insert_group : List String → List (List String) → List (List String)
insert_group g [] = g ∷ []
insert_group g (h ∷ hs) = if list_before g h then g ∷ h ∷ hs else h ∷ insert_group g hs

unfoldable pub sort_groups : List (List String) → List (List String)
unfolding insert_group
sort_groups [] = []
sort_groups (g ∷ gs) = insert_group g (sort_groups gs)

abbrev pub with_group : List String → Option (List (List String)) → Option (List (List String))
with_group found none = none
with_group found (some groups) = some (sort_texts found ∷ groups)

-- Fuel for one search: its root, and one for each link.
abbrev pub fuel_of : Links → ℕ
fuel_of links = suc (weight [] links)

-- The loop over the roots; `none` means that a search ran out of fuel.
unfoldable pub components_from : Links → List String → List String → Option (List (List String))
components_from links [] remaining = some []
components_from links (root ∷ roots) remaining =
    let skip = components_from links roots remaining in
    let group : Option (List (List String)) = elim (search links (fuel_of links) (root ∷ []) []) [
      | none ↦ none
      | some found ↦ with_group found (components_from links roots (outside found remaining))
    ] in
    if one_of root remaining then group else skip

abbrev pub sorted_groups : Option (List (List String)) → Option (List (List String))
sorted_groups none = none
sorted_groups (some groups) = some (sort_groups groups)

unfoldable pub components : List String → List Edge → Option (List (List String))
unfolding components_from sort_groups sort_texts keys
components nodes edges =
    let links = adjacency nodes edges false true in
    sorted_groups (components_from links (keys links) (keys links))
