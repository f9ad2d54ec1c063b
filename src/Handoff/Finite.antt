-- ===== src/Handoff/Finite.antt =====
-- `_finite`, `canonical_bytes` and `canonical_sha256` of mcp/gxp_core/handoff_store.py.
use Prim.Native.Nat.{◌/◌, ◌%◌, ◌^◌}
use Prim.Native.String.{len}
use look_lowcode.Prelude.{
  ℕ, ◌+◌, ◌*◌, String, Bool, true, false, not, ◌||◌, List, [], ◌∷◌, leb, nat_beq, one_of, ◌==◌,
}
use look_lowcode.Json.{
  Runtime, Value, null, bool, int, float, str, arr, obj, Items, nil, cons, Fields, end, field,
}
use look_lowcode.Outcome.{done, ◌>>=◌, ◌>>◌, require}
use look_lowcode.Handoff.Host.{
  limit, format, private_data, value_error, unicode_error, Attempt, Host, size, field_count,
}

abbrev pub forbidden : List String
forbidden =
    "password" ∷ "passwd" ∷ "credential" ∷ "credentials" ∷ "secret" ∷ "access_token"
    ∷ "refresh_token" ∷ "api_key" ∷ "connection_string" ∷ "authorization" ∷ "business_rows"
    ∷ "query_results" ∷ "csharp_code" ∷ "js_code" ∷ "generated_code" ∷ []

-- math.isfinite, on the bits of a float
abbrev pub is_finite : ℕ → Bool
is_finite bits = not (nat_beq (bits / 2 ^ 52 % 2048) 2047)

-- value in (None, "", [], {})
abbrev pub is_vacant : Value → Bool
is_vacant null = true
is_vacant (str s) = s == ""
is_vacant (arr nil) = true
is_vacant (obj end) = true
is_vacant _ = false

abbrev pub may_stand : Runtime → String → Value → Bool
may_stand py key v = not (one_of (py.lower key) forbidden) || is_vacant v

unfoldable mutual
  pub finite : Runtime → ℕ → Value → Attempt (Unit {0})
  finite py depth null = require (leb depth 40) limit
  finite py depth (bool _) = require (leb depth 40) limit
  finite py depth (int _) = require (leb depth 40) limit
  finite py depth (float x) = require (leb depth 40) limit >> require (is_finite x) format
  finite py depth (str s) =
      require (leb depth 40) limit
      >> require (py.encodable s) unicode_error
      >> require (leb (len s) (64 * 1024)) limit
  finite py depth (arr xs) =
      require (leb depth 40) limit
      >> require (leb (size xs) 2000) limit
      >> finite_items py (depth + 1) xs
  finite py depth (obj fs) =
      require (leb depth 40) limit
      >> require (leb (field_count fs) 2000) format
      >> finite_fields py (depth + 1) fs

  pub finite_items : Runtime → ℕ → Items → Attempt (Unit {0})
  finite_items py depth nil = done tt
  finite_items py depth (cons v rest) = finite py depth v >> finite_items py depth rest

  pub finite_fields : Runtime → ℕ → Fields → Attempt (Unit {0})
  finite_fields py depth end = done tt
  finite_fields py depth (field key v rest) =
      require (may_stand py key v) private_data >> finite py depth v >> finite_fields py depth rest

unfoldable pub canonical_bytes : Host → Value → Attempt String
canonical_bytes host v =
    finite host.runtime 0 v
    >> require (host.printable v) value_error
    >> require (host.runtime.encodable (host.encode v)) unicode_error
    >> done (host.encode v)

unfoldable pub canonical_sha256 : Host → Value → Attempt String
unfolding canonical_bytes
canonical_sha256 host v = do payload ← canonical_bytes host v; done (host.sha256 payload)
