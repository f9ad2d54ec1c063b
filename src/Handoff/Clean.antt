-- ===== src/Handoff/Clean.antt =====
-- What `_finite` of mcp/gxp_core/handoff_store.py lets pass: the nesting and the field names of a value.
use Prim.Native.String.{len}
use look_lowcode.Prelude.{
  ℕ, suc, ◌+◌, ◌*◌, ◌≤◌, String, Bool, true, not, ◌&&◌, ◌||◌, leb, one_of, ◌≡◌, refl, arith,
  if◌then◌else◌,
}
use look_lowcode.Json.{
  Runtime, Value, null, bool, int, float, str, arr, obj, Items, nil, cons, Fields, end, field,
}
use look_lowcode.Outcome.{done, ◌>>◌, require, then-eq_done, require-eq_done, done_inj}
use look_lowcode.Handoff.Host.{
  limit, format, private_data, value_error, unicode_error, Host, size, field_count,
}
use look_lowcode.Handoff.Finite.{
  forbidden, is_finite, is_vacant, may_stand, finite, finite_items, finite_fields, canonical_bytes,
}

abbrev larger : ℕ → ℕ → ℕ
larger a b = if leb a b then b else a

-- How deep the values of a value are nested.
unfoldable mutual
  pub nesting : Value → ℕ
  nesting (arr xs) = items_nesting xs
  nesting (obj fs) = fields_nesting fs
  nesting _ = 0

  pub items_nesting : Items → ℕ
  items_nesting nil = 0
  items_nesting (cons v rest) = larger (suc (nesting v)) (items_nesting rest)

  pub fields_nesting : Fields → ℕ
  fields_nesting end = 0
  fields_nesting (field k v rest) = larger (suc (nesting v)) (fields_nesting rest)

-- No field that is named like a secret, a query's rows or generated code, at any depth, holds anything.
unfoldable mutual
  pub is_clean : Runtime → Value → Bool
  is_clean py (arr xs) = clean_items py xs
  is_clean py (obj fs) = clean_fields py fs
  is_clean py _ = true

  pub clean_items : Runtime → Items → Bool
  clean_items py nil = true
  clean_items py (cons v rest) = is_clean py v && clean_items py rest

  pub clean_fields : Runtime → Fields → Bool
  clean_fields py end = true
  clean_fields py (field k v rest) =
      (not (one_of (py.lower k) forbidden) || is_vacant v) && is_clean py v && clean_fields py rest

leaf : (depth : ℕ) → require (leb depth 40) limit ≡ done tt → depth + 0 ≤ 40
leaf depth h = ground (arith, require-eq_done (leb depth 40) limit h)

deeper : (depth a b : ℕ) → depth + 1 + a ≤ 40 → depth + b ≤ 40 → depth + larger (suc a) b ≤ 40
deeper depth a b h k = ground arith

mutual
  unfolding finite nesting is_clean

  clean_value :
      (py : Runtime) (depth : ℕ) (v : Value)
      → finite py depth v ≡ done tt
      → (depth + nesting v ≤ 40) × (is_clean py v ≡ true)
  clean_value py depth null h = (leaf depth h, refl)
  clean_value py depth (bool _) h = (leaf depth h, refl)
  clean_value py depth (int _) h = (leaf depth h, refl)
  clean_value py depth (float x) h =
      (leaf depth (then-eq_done _ (require (is_finite x) format) h).0, refl)
  clean_value py depth (str s) h = (
    leaf depth (then-eq_done _ _ (then-eq_done _ (require (leb (len s) (64 * 1024)) limit) h).0).0,
    refl,
  )
  clean_value py depth (arr xs) h =
      let counted = require (leb (size xs) 2000) limit in
      let inside = finite_items py (depth + 1) xs in
      let (here, h1) = then-eq_done (require (leb depth 40) limit >> counted) inside h in
      clean_each py depth xs
        (leaf depth (then-eq_done (require (leb depth 40) limit) counted here).0) h1
  clean_value py depth (obj fs) h =
      let counted = require (leb (field_count fs) 2000) format in
      let inside = finite_fields py (depth + 1) fs in
      let (here, h1) = then-eq_done (require (leb depth 40) limit >> counted) inside h in
      clean_each_field py depth fs
        (leaf depth (then-eq_done (require (leb depth 40) limit) counted here).0) h1

  clean_each :
      (py : Runtime) (depth : ℕ) (xs : Items)
      → depth + 0 ≤ 40
      → finite_items py (depth + 1) xs ≡ done tt
      → (depth + items_nesting xs ≤ 40) × (clean_items py xs ≡ true)
  clean_each py depth nil here h = (here, refl)
  clean_each py depth (cons v rest) here h =
      let (h1, h2) = then-eq_done (finite py (depth + 1) v) (finite_items py (depth + 1) rest) h in
      let (deep, clean) = clean_value py (depth + 1) v h1 in
      let (deeps, cleans) = clean_each py depth rest here h2 in
      (deeper depth (nesting v) (items_nesting rest) deep deeps, rw (clean, cleans) refl)

  clean_each_field :
      (py : Runtime) (depth : ℕ) (fs : Fields)
      → depth + 0 ≤ 40
      → finite_fields py (depth + 1) fs ≡ done tt
      → (depth + fields_nesting fs ≤ 40) × (clean_fields py fs ≡ true)
  clean_each_field py depth end here h = (here, refl)
  clean_each_field py depth (field k v rest) here h =
      let allowed = require (may_stand py k v) private_data in
      let (h0, h2) =
        then-eq_done (allowed >> finite py (depth + 1) v) (finite_fields py (depth + 1) rest) h in
      let (own, h1) = then-eq_done allowed (finite py (depth + 1) v) h0 in
      let (deep, clean) = clean_value py (depth + 1) v h1 in
      let (deeps, cleans) = clean_each_field py depth rest here h2 in
      (
        deeper depth (nesting v) (fields_nesting rest) deep deeps,
        rw (require-eq_done (may_stand py k v) private_data own, clean, cleans) refl,
      )

-- The canonical bytes of a value are its encoding, and exist where it passes, can be printed, and its
-- encoding is a text without lone surrogates.
pub canonical_bytes-eq_done :
    (host : Host) (v : Value) (payload : String)
    → canonical_bytes host v ≡ done payload
    → (finite host.runtime 0 v ≡ done tt)
      × (host.printable v ≡ true)
      × (host.runtime.encodable (host.encode v) ≡ true)
      × (host.encode v ≡ payload)
unfolding canonical_bytes
canonical_bytes-eq_done host v payload h =
    let printed = require (host.printable v) value_error in
    let coded = require (host.runtime.encodable (host.encode v)) unicode_error in
    let (h2, same) =
      then-eq_done (finite host.runtime 0 v >> printed >> coded) (done (host.encode v)) h in
    let (h1, code) = then-eq_done (finite host.runtime 0 v >> printed) coded h2 in
    let (checked, print) = then-eq_done (finite host.runtime 0 v) printed h1 in
    (
      checked,
      require-eq_done (host.printable v) value_error print,
      require-eq_done (host.runtime.encodable (host.encode v)) unicode_error code,
      done_inj (host.encode v) payload same,
    )

-- A value that passes at a depth is nested so that no depth exceeds 40, and no field of it at any level that
-- has a forbidden name holds anything.
pub finite-Clean :
    (py : Runtime) (depth : ℕ) (v : Value)
    → finite py depth v ≡ done tt
    → (depth + nesting v ≤ 40) × (is_clean py v ≡ true)
finite-Clean py depth v h = clean_value py depth v h
