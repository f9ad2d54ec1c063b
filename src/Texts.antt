-- ===== src/Texts.antt =====
-- Texts in order: `sorted` of a list and of a set, and comparison by code points.
pub mod Order
pub mod Later
use Prim.Native.String.{compare}
use text.Mathlib.Text.{is_lt}
use look_lowcode.Prelude.{String, Bool, true, false, List, [], ◌∷◌, one_of, if◌then◌else◌}

-- a < b
abbrev pub precedes : String → String → Bool
precedes a b = is_lt (compare a b)

unfoldable pub insert_text : String → List String → List String
insert_text x [] = x ∷ []
insert_text x (y ∷ ys) = if is_lt (compare x y) then x ∷ y ∷ ys else y ∷ insert_text x ys

-- sorted(found)
unfoldable pub sort_texts : List String → List String
unfolding insert_text
sort_texts [] = []
sort_texts (x ∷ xs) = insert_text x (sort_texts xs)

-- sorted(set(texts))
unfoldable pub sorted_set : List String → List String
unfolding insert_text
sorted_set [] = []
sorted_set (x ∷ xs) = let rest = sorted_set xs in if one_of x xs then rest else insert_text x rest
