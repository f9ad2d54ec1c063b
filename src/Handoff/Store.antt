-- ===== src/Handoff/Store.antt =====
-- `HandoffStore.write` and `HandoffStore.read` of mcp/gxp_core/handoff_store.py. The files are those of the
-- store's folder that end in `.json`, by the rest of their names.
use Prim.Native.String.{len}
use look_lowcode.Prelude.{
  ℕ, ◌*◌, String, Bool, false, not, ◌&&◌, ◌||◌, Option, none, some, [], ◌∷◌, pos, leb, ◌==◌,
  if◌then◌else◌,
}
use look_lowcode.Dict.{Dict, lookup, insert}
use look_lowcode.Json.{Runtime, Value, null, int, str, obj, Fields, end, field, value_eq}
use look_lowcode.Condition.Text.{truthy}
use look_lowcode.Condition.Build.{get}
use look_lowcode.Outcome.{raised, done, ◌>>=◌, ◌>>◌, require}
use look_lowcode.Handoff.Host.{
  limit, format, identifier, checksum, not_found, type_error, key_error, value_error, bad_json,
  long_integer, parsed_as, Attempt, Host, exactly, is_id, is_hash,
}
use look_lowcode.Handoff.Finite.{canonical_bytes, canonical_sha256}
use look_lowcode.Handoff.Snapshots.{fields, fields_in}
use look_lowcode.Handoff.Record.{validate}
use look_lowcode.Handoff.Summary.{summary}

-- The bytes of a file: a text in UTF-8, or so many bytes that are none.
pub data Payload : Type 0 where
  utf8 : String → Payload
  garbled : ℕ → Payload

pub record Stored : Type 0 where
  pub linked : Bool
  pub payload : Payload

abbrev pub Files : Type 0
Files = Dict Stored

abbrev pub max_bytes : ℕ
max_bytes = 256 * 1024

abbrev pub payload_size : Payload → ℕ
payload_size (utf8 s) = len s
payload_size (garbled n) = n

-- fields[key] = value
unfoldable pub set_field : String → Value → Fields → Fields
set_field key v end = field key v end
set_field key v (field k w fs) = if k == key then field k v fs else field k w (set_field key v fs)

pub record Receipt : Type 0 where
  pub handoff_id : String
  pub sha256 : String
  pub shown : Value

abbrev pub envelope : Fields → String → Value
envelope record_fields digest =
    obj (fields (("record", obj record_fields) ∷ ("sha256", str digest) ∷ []))

-- The record with the store's fields.
unfoldable pub stamped : String → String → Fields → Fields
unfolding set_field
stamped token now fs =
    set_field "created_at" (str now)
      (set_field "handoff_id" (str token) (set_field "schema_version" (int (pos 1)) fs))

-- `token` is what `secrets.token_hex(16)` gives, and `now` the time. The answer has the new files.
unfoldable pub write : Host → String → String → Fields → Files → Attempt (Receipt × Files)
unfolding stamped validate canonical_bytes canonical_sha256
write host token now fs files = do
  let saved = stamped token now fs
  validate host (obj saved)
  digest ← canonical_sha256 host (obj saved)
  payload ← canonical_bytes host (envelope saved digest)
  require (leb (len payload) max_bytes) limit
  done (
    record { handoff_id = token; sha256 = digest; shown = summary host.runtime saved digest },
    insert token (record { linked = false; payload = utf8 payload }) files,
  )

-- `except (UnicodeDecodeError, JSONDecodeError, RecursionError, TypeError, KeyError)`; a ValueError of another
-- kind and a UnicodeEncodeError pass.
unfoldable pub caught : {A : Type 0} → Attempt A → Attempt A
caught (done a) = done a
caught (raised type_error) = raised format
caught (raised key_error) = raised format
caught (raised e) = raised e

abbrev pub decoded : Host → Payload → Attempt Value
decoded host (garbled n) = raised format
decoded host (utf8 s) = elim (host.decode s) [
  | bad_json ↦ raised format
  | long_integer ↦ raised value_error
  | parsed_as v ↦ done v
]

-- `sha256 and sha256 != checksum`, for an expected checksum that is a text
abbrev pub expects : Runtime → Value → String → Bool
expects py expected digest = not (truthy expected) || value_eq py expected (str digest)

unfoldable pub read_envelope : Host → String → Value → Value → Attempt Fields
unfolding validate canonical_sha256
read_envelope host token expected (obj fs) = do
  require (exactly ("record" ∷ "sha256" ∷ []) fs) format
  validate host (get "record" null fs)
  digest ← canonical_sha256 host (get "record" null fs)
  require
      (value_eq host.runtime (get "handoff_id" null (fields_in (get "record" null fs))) (str token)
        && value_eq host.runtime (get "sha256" null fs) (str digest)
        && expects host.runtime expected digest)
      checksum
  done (fields_in (get "record" null fs))
read_envelope host token expected _ = raised format

unfoldable pub read_stored : Host → String → Value → Option Stored → Attempt Fields
unfolding read_envelope caught
read_stored host token expected none = raised not_found
read_stored host token expected (some file) =
    require (not file.linked && leb (payload_size file.payload) max_bytes) limit
    >> caught (decoded host file.payload >>= read_envelope host token expected)

abbrev pub valid_checksum : Value → Bool
valid_checksum (str s) = is_hash s
valid_checksum _ = false

unfoldable pub read : Host → Files → Value → Value → Attempt Fields
unfolding read_stored
read host files (str token) expected = do
  require (is_id token) identifier
  require (not (truthy expected) || valid_checksum expected) checksum
  read_stored host token expected (lookup token files)
read host files _ expected = raised identifier
