-- ===== src/Handoff/Written.antt =====
-- What `HandoffStore.write` of mcp/gxp_core/handoff_store.py leaves in the store.
use Prim.Native.String.{len}
use look_lowcode.Prelude.{
  String, true, false, not, ◌||◌, some, pos, leb, ◌==◌, eq_iff, eq_refl, Bool-cases, inl, inr, ◌⊎◌,
  ◌≡◌, ◌≢◌, refl, sym, ◌∙◌, ap, arith, if◌then◌else◌,
}
use look_lowcode.Dict.{value_or, lookup, insert, lookup-insert}
use look_lowcode.Json.{Runtime, Value, null, int, str, obj, Fields, end, field, field_at, value_eq}
use look_lowcode.Condition.Text.{truthy}
use look_lowcode.Condition.Build.{get}
use look_lowcode.Outcome.{
  Outcome, raised, done, ◌>>=◌, ◌>>◌, require, bind-eq_done, then-eq_done, require-eq_done,
  done_inj,
}
use look_lowcode.Handoff.Host.{limit, parsed_as, Attempt, Host, is_id, is_hash}
use look_lowcode.Handoff.Finite.{finite, canonical_bytes, canonical_sha256}
use look_lowcode.Handoff.Clean.{canonical_bytes-eq_done}
use look_lowcode.Handoff.Ordered.{insert_field, in_order, fields_in_order, get-fields_in_order}
use look_lowcode.Handoff.Record.{default_kind, validate_fields, validate}
use look_lowcode.Handoff.Summary.{summary}
use look_lowcode.Handoff.Store.{
  utf8, Stored, Files, max_bytes, set_field, Receipt, envelope, stamped, write, caught, decoded,
  expects, read_envelope, read_stored, valid_checksum, read,
}

outcome_cases : {E : Type 0} (m : Outcome E (Unit {0})) → ((e : E) × (m ≡ raised e)) ⊎ (m ≡ done tt)
outcome_cases (raised e) = inl (e, refl)
outcome_cases (done tt) = inr refl

field_at-set_field :
    (key k : String) (v : Value) (fs : Fields)
    → field_at k (set_field key v fs) ≡ (if key == k then some v else field_at k fs)
unfolding set_field
field_at-set_field key k v end = refl
field_at-set_field key k v (field j w fs) =
    ground (arith, field_at-set_field key k v fs, eq_iff j key, eq_iff j k, eq_iff key k)

-- The stamped record carries the id that it is stored by.
get-stamped :
    (token now : String) (fs : Fields) → get "handoff_id" null (stamped token now fs) ≡ str token
unfolding stamped
get-stamped token now fs = ap (value_or null) (
    field_at-set_field "created_at" "handoff_id" (str now)
      (set_field "handoff_id" (str token) (set_field "schema_version" (int (pos 1)) fs))
    ∙ field_at-set_field "handoff_id" "handoff_id" (str token)
        (set_field "schema_version" (int (pos 1)) fs))

-- What `write` has checked and stored when it answers.
pub record Written (host : Host) (token : String) (saved : Fields) (files after : Files)
    (r : Receipt) : Type 0 where
  pub payload : String
  pub valid : validate host (obj saved) ≡ done tt
  pub summed : canonical_sha256 host (obj saved) ≡ done r.sha256
  pub encoded : canonical_bytes host (envelope saved r.sha256) ≡ done payload
  pub fits : leb (len payload) max_bytes ≡ true
  pub id : r.handoff_id ≡ token
  pub stored : after ≡ insert token (record { linked = false; payload = utf8 payload }) files

abbrev receipt : Host → String → Fields → String → Receipt
receipt host token saved digest = record {
  handoff_id = token;
  sha256 = digest;
  shown = summary host.runtime saved digest;
}

abbrev stored_as : String → String → Files → Files
stored_as token payload files =
    insert token (record { linked = false; payload = utf8 payload }) files

pub write-Written :
    (host : Host) (token now : String) (fs : Fields) (files after : Files) (r : Receipt)
    → write host token now fs files ≡ done (r, after)
    → Written host token (stamped token now fs) files after r
unfolding write
write-Written host token now fs files after r h =
    let saved = stamped token now fs in
    let (valid, h1) = then-eq_done (validate host (obj saved)) _ h in
    let (digest, summed, h2) = bind-eq_done (canonical_sha256 host (obj saved)) _ h1 in
    let (payload, bytes, h3) = bind-eq_done (canonical_bytes host (envelope saved digest)) _ h2 in
    let (small, h4) =
      then-eq_done (require (leb (len payload) max_bytes) limit)
        (done (receipt host token saved digest, stored_as token payload files)) h3 in
    let same =
      done_inj (receipt host token saved digest, stored_as token payload files) (r, after) h4 in
    let sum : digest ≡ r.sha256 = ap (λ p. p.0.sha256) same in
    record {
      payload = payload;
      valid = valid;
      summed = summed ∙ ap done sum;
      encoded = ap (λ d. canonical_bytes host (envelope saved d)) (sym sum) ∙ bytes;
      fits = require-eq_done _ limit small;
      id = sym (ap (λ p. p.0.handoff_id) same);
      stored = sym (ap (λ p. p.1) same);
    }

-- What `validate` lets pass has a finite encoding.
validate-finite :
    (host : Host) (fs : Fields)
    → validate host (obj fs) ≡ done tt
    → finite host.runtime 0 (obj fs) ≡ done tt
unfolding validate validate_fields
validate-finite host fs h =
    let (_, h1) = then-eq_done _ (validate_fields host (get "record_kind" default_kind fs) fs) h in
    (then-eq_done _ (finite host.runtime 0 (obj fs)) h1).1

canonical_sha256_known :
    (host : Host) (v : Value) (payload : String)
    → finite host.runtime 0 v ≡ done tt
    → host.printable v ≡ true
    → host.runtime.encodable payload ≡ true
    → host.encode v ≡ payload
    → canonical_sha256 host v ≡ done (host.sha256 payload)
unfolding canonical_sha256 canonical_bytes
canonical_sha256_known host v payload checked print code same = rw (checked, print, same, code) refl

abbrev validated : Host → Fields → Attempt Fields
validated host fs = validate host (obj fs) >> done fs

-- A sealed envelope reads back as far as its record is valid.
read_envelope-envelope :
    (host : Host) (token e digest : String) (saved : Fields)
    → (validate host (obj saved) ≡ done tt → canonical_sha256 host (obj saved) ≡ done digest)
    → get "handoff_id" null saved ≡ str token
    → expects host.runtime (str e) digest ≡ true
    → read_envelope host token (str e) (envelope saved digest) ≡ validated host saved
unfolding read_envelope value_eq
read_envelope-envelope host token e digest saved summed own asked =
    elim (outcome_cases (validate host (obj saved))) [
      | inl (f, bad) ↦ rw bad refl
      | inr valid ↦ rw (valid, summed valid, own, eq_refl token, eq_refl digest, asked) refl
    ]

lookup_own :
    (token : String) (file : Stored) (files : Files)
    → lookup token (insert token file files) ≡ some file
lookup_own token file files = lookup-insert token token file files ∙ rw (eq_refl token) refl

expects_own :
    (py : Runtime) (e digest : String) → (e ≡ "") ⊎ (e ≡ digest) → expects py (str e) digest ≡ true
unfolding value_eq truthy
expects_own py e digest (inl blank) = rw blank refl
expects_own py e digest (inr same) = rw same (ground (arith, eq_refl digest))

valid_own :
    (e digest : String)
    → is_hash digest ≡ true
    → (e ≡ "") ⊎ (e ≡ digest)
    → (not (truthy (str e)) || valid_checksum (str e)) ≡ true
unfolding truthy
valid_own e digest hash (inl blank) = rw blank refl
valid_own e digest hash (inr same) = rw (same, hash) (ground arith)

decoded-utf8 :
    (host : Host) (s : String) (v : Value)
    → host.decode s ≡ parsed_as v
    → decoded host (utf8 s) ≡ done v
decoded-utf8 host s v h = rw (h, decoded) refl

-- The checksum of a record with its keys in order is the one that `write` answered.
summed_in_order :
    (host : Host) (saved : Fields) (digest : String)
    → canonical_sha256 host (obj saved) ≡ done digest
    → host.encode (in_order (obj saved)) ≡ host.encode (obj saved)
    → host.printable (in_order (obj saved)) ≡ host.printable (obj saved)
    → validate host (in_order (obj saved)) ≡ done tt
    → canonical_sha256 host (in_order (obj saved)) ≡ done digest
unfolding canonical_sha256 in_order
summed_in_order host saved digest summed sorts prints valid =
    let (bytes, coded, hashed) =
      bind-eq_done (canonical_bytes host (obj saved)) (λ payload. done (host.sha256 payload))
        summed in
    let (_, print, code, same) = canonical_bytes-eq_done host (obj saved) bytes coded in
    canonical_sha256_known host (in_order (obj saved)) bytes
      (validate-finite host (fields_in_order saved) valid) (prints ∙ print)
      (ap host.runtime.encodable (sym same) ∙ code) (sorts ∙ same)
    ∙ hashed

-- What `write` stores is valid and reads back, asked by its id alone or with its checksum too, with its keys in
-- order: `read` answers that record, or what `validate` raises on it. The token is an id, digests are SHA-256
-- digests, the encoding of the record does not depend on the order of its keys, nor does whether it has one, and
-- the decoder gives back what was encoded with its keys in order.
pub read-write :
    (host : Host) (token now e : String) (fs : Fields) (files after : Files) (r : Receipt)
    → is_id token ≡ true
    → ((s : String) → is_hash (host.sha256 s) ≡ true)
    → host.encode (in_order (obj (stamped token now fs))) ≡ host.encode (obj (stamped token now fs))
    → host.printable (in_order (obj (stamped token now fs)))
      ≡ host.printable (obj (stamped token now fs))
    → host.decode (host.encode (envelope (stamped token now fs) r.sha256))
      ≡ parsed_as (in_order (envelope (stamped token now fs) r.sha256))
    → (e ≡ "") ⊎ (e ≡ r.sha256)
    → write host token now fs files ≡ done (r, after)
    → (validate host (obj (stamped token now fs)) ≡ done tt)
      × (read host after (str token) (str e)
          ≡ caught (
              validate host (obj (fields_in_order (stamped token now fs)))
              >> done (fields_in_order (stamped token now fs))))
unfolding read read_stored canonical_sha256 in_order insert_field
read-write host token now e fs files after r id hashes sorts prints decodes asked h =
    let saved = stamped token now fs in
    let ordered = fields_in_order saved in
    let w = write-Written host token now fs files after r h in
    let (bytes, _, hashed) =
      bind-eq_done (canonical_bytes host (obj saved)) (λ payload. done (host.sha256 payload))
        w.summed in
    let hash : is_hash r.sha256 ≡ true =
      ap is_hash (sym (done_inj (host.sha256 bytes) r.sha256 hashed)) ∙ hashes bytes in
    let found : lookup token after ≡ some (record { linked = false; payload = utf8 w.payload }) =
      ap (lookup token) w.stored
      ∙ lookup_own token (record { linked = false; payload = utf8 w.payload }) files in
    let own_text : host.encode (envelope saved r.sha256) ≡ w.payload =
      (canonical_bytes-eq_done host (envelope saved r.sha256) w.payload w.encoded).3 in
    let decoded_own : decoded host (utf8 w.payload) ≡ done (envelope ordered r.sha256) =
      decoded-utf8 host w.payload (envelope ordered r.sha256)
        (ap host.decode (sym own_text) ∙ decodes) in
    (
      w.valid,
      rw (id, valid_own e r.sha256 hash asked, found, w.fits)
          (ap (λ m. caught (m >>= read_envelope host token (str e))) decoded_own
            ∙ ap caught (
                read_envelope-envelope host token e r.sha256 ordered
                  (summed_in_order host saved r.sha256 w.summed sorts prints)
                  (get-fields_in_order "handoff_id" token saved (get-stamped token now fs))
                  (expects_own host.runtime e r.sha256 asked))),
    )

not_same : (a b : String) → a ≢ b → (a == b) ≡ false
not_same a b apart = elim (Bool-cases (a == b)) [
  | inl same ↦ absurd (apart ((eq_iff a b).0 same))
  | inr differs ↦ differs
]

-- A write leaves every other file of the store as it was.
pub lookup-write :
    (host : Host) (token now other : String) (fs : Fields) (files after : Files) (r : Receipt)
    → token ≢ other
    → write host token now fs files ≡ done (r, after)
    → lookup other after ≡ lookup other files
lookup-write host token now other fs files after r apart h =
    let w = write-Written host token now fs files after r h in
    ap (lookup other) w.stored
    ∙ lookup-insert token other (record { linked = false; payload = utf8 w.payload }) files
    ∙ rw (not_same token other apart) refl
