-- ===== src/Policy/Listed.antt =====
-- Sorting and filtering lose no decision (mcp/gxp_core/relation_policy.py, `snapshot`).
use look_lowcode.Prelude.{
  ℕ, String, Bool, true, false, ◌||◌, ◌&&◌, some, [], ◌∷◌, ◌==◌, eq_iff, one_of, ◌≡◌, refl, ◌∙◌,
  arith, if◌then◌else◌,
}
use look_lowcode.Dict.{Dict, lookup}
use look_lowcode.Policy.Document.{is_rejected, Decision}
use look_lowcode.Policy.Store.{was_rejected, restore_revision}
use look_lowcode.Policy.Snapshot.{
  insert_sorted, sorted_items, rejections_of, restores_of, has_restore, ids,
}

-- Whether `snapshot` lists the relation among the rejections.
abbrev pub listed : String → Dict Decision → Bool
listed r ds = one_of r (ids (rejections_of ds))

module _ (r : String) where
  listed-cons :
      (k : String) (d : Decision) (ds : Dict Decision)
      → listed r ((k, d) ∷ ds) ≡ (is_rejected d.state && r == k || listed r ds)
  unfolding rejections_of
  listed-cons k d ds = ground arith

  listed-insert_sorted :
      (k : String) (d : Decision) (ds : Dict Decision)
      → listed r (insert_sorted k d ds) ≡ (is_rejected d.state && r == k || listed r ds)
  unfolding insert_sorted
  listed-insert_sorted k d [] = listed-cons k d []
  listed-insert_sorted k d ((j, e) ∷ ds) = ground (
    arith,
    listed-cons k d ((j, e) ∷ ds),
    listed-cons j e ds,
    listed-cons j e (insert_sorted k d ds),
    listed-insert_sorted k d ds,
  )

  pub listed-sorted_items : (ds : Dict Decision) → listed r (sorted_items ds) ≡ listed r ds
  unfolding sorted_items
  listed-sorted_items [] = refl
  listed-sorted_items ((k, d) ∷ ds) = ground (
    arith,
    listed-insert_sorted k d (sorted_items ds),
    listed-cons k d ds,
    listed-sorted_items ds,
  )

  -- A rejected decision is listed.
  pub listed_of_rejected :
      (ds : Dict Decision) → was_rejected (lookup r ds) ≡ true → listed r ds ≡ true
  unfolding lookup
  listed_of_rejected [] h = cc
  listed_of_rejected ((k, d) ∷ ds) h =
      ground (arith, listed-cons k d ds, eq_iff k r, eq_iff r k, listed_of_rejected ds)

  lookup-if :
      (b : Bool) (k : String) (v : ℕ) (rest : Dict ℕ)
      → lookup r (if b then (k, v) ∷ rest else rest)
        ≡ (if b && k == r then some v else lookup r rest)
  unfolding lookup
  lookup-if true k v rest = refl
  lookup-if false k v rest = refl

  -- A decision with a restore revision keeps it in the snapshot.
  pub lookup-restores_of :
      (revision : ℕ) (ds : Dict Decision) (d : Decision)
      → lookup r ds ≡ some d
      → has_restore d ≡ true
      → lookup r (restores_of revision ds) ≡ some (restore_revision revision (some d))
  unfolding lookup restores_of
  lookup-restores_of revision [] d h k = cc
  lookup-restores_of revision ((j, e) ∷ ds) d h k =
      lookup-if (has_restore e) j (restore_revision revision (some e)) (restores_of revision ds)
      ∙ ground (arith, lookup-restores_of revision ds d)
