-- ===== src/Handoff/Ids.antt =====
-- The paths that a page of mcp/gxp_core/handoff_store.py's `list_page` is of: the ids behind its cursor.
use Prim.Native.String.compare as compare_clauses
use text.Mathlib.Text.{is_lt}
use look_lowcode.Prelude.{
  ◌≤◌, String, true, false, List, [], ◌∷◌, length, one_of, All, Bool-cases, inl, inr, ◌≡◌, refl,
  ◌∙◌, ap, arith, if◌then◌else◌,
}
use look_lowcode.Texts.{precedes, sort_texts}
use look_lowcode.Texts.Order.{
  Ascends, later, later-All, sort_texts-later, sort_texts-Ascends, All-sort_texts, All-imp,
  all_distinct,
}
use look_lowcode.Handoff.Host.{is_id}
use look_lowcode.Handoff.Store.{Files}
use look_lowcode.Handoff.Page.{file_names, ids_after, paths_after}

-- The names that are ids.
abbrev pub id_names : List String → List String
id_names [] = []
id_names (x ∷ xs) = let rest = id_names xs in if is_id x then x ∷ rest else rest

-- The ids of the store's files in ascending order.
abbrev pub every_id : Files → List String
every_id files = sort_texts (id_names (file_names files))

ids_after-later :
    (after : String) (xs : List String) → ids_after after xs ≡ later after (id_names xs)
ids_after-later after [] = refl
ids_after-later after (x ∷ xs) = ground (arith, ids_after-later after xs)

pub paths_after-later :
    (after : String) (files : Files) → paths_after after files ≡ later after (every_id files)
unfolding paths_after
paths_after-later after files =
    ap sort_texts (ids_after-later after (file_names files))
    ∙ sort_texts-later after (id_names (file_names files))

id_names-All : (xs : List String) → All (λ x. is_id x ≡ true) (id_names xs)
id_names-All [] = tt
id_names-All (x ∷ xs) = elim (Bool-cases (is_id x)) [
  | inl good ↦ rw good (good, id_names-All xs)
  | inr bad ↦ rw bad (id_names-All xs)
]

id_is_late : (s : String) → is_id s ≡ true → precedes "" s ≡ true
unfolding is_id
id_is_late String.[] h = cc
id_is_late (String.◌∷◌ c s) h = ap is_lt (compare_clauses.nil-cons c s)

one_of_ids : (x : String) (xs : List String) → one_of x xs ≡ false → one_of x (id_names xs) ≡ false
one_of_ids x [] h = refl
one_of_ids x (y ∷ ys) h = ground (arith, one_of_ids x ys)

distinct_ids : (xs : List String) → all_distinct xs ≡ true → all_distinct (id_names xs) ≡ true
distinct_ids [] h = refl
distinct_ids (x ∷ xs) h = ground (arith, distinct_ids xs, one_of_ids x xs)

pub length-id_names : (files : Files) → length (id_names (file_names files)) ≤ length files
length-id_names [] = omega arith
length-id_names ((x, file) ∷ files) = elim (Bool-cases (is_id x)) [
  | inl good ↦ rw good (grind (arith, length-id_names files))
  | inr bad ↦ rw bad (grind (arith, length-id_names files))
]

pub every_id-is_id : (files : Files) → All (λ x. is_id x ≡ true) (every_id files)
every_id-is_id files =
    All-sort_texts (λ x. is_id x ≡ true) (id_names (file_names files))
      (id_names-All (file_names files))

pub every_id-Ascends :
    (files : Files) → all_distinct (file_names files) ≡ true → Ascends (every_id files)
every_id-Ascends files h =
    sort_texts-Ascends (id_names (file_names files)) (distinct_ids (file_names files) h)

-- Before the first page, all the ids are ahead.
pub paths_after_start : (files : Files) → paths_after "" files ≡ every_id files
paths_after_start files =
    paths_after-later "" files
    ∙ later-All "" (every_id files) (
        All-imp (λ x. is_id x ≡ true) (λ x. precedes "" x ≡ true) (every_id files) id_is_late
          (every_id-is_id files))
