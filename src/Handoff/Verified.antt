-- ===== src/Handoff/Verified.antt =====
-- What `HandoffStore.write` stores and what `HandoffStore.read` answers (mcp/gxp_core/handoff_store.py).
use Prim.Native.String.{len}
use look_lowcode.Prelude.{
  String, Bool, true, false, not, ◌&&◌, Option, none, some, [], ◌∷◌, leb, ◌==◌, eq_iff, Bool-cases,
  inl, inr, ◌⊎◌, ◌≡◌, refl, sym, ◌∙◌, ap, arith,
}
use look_lowcode.Dict.{lookup}
use look_lowcode.Json.{Runtime, Value, null, bool, int, float, str, arr, obj, Fields, value_eq}
use look_lowcode.Condition.Text.{truthy}
use look_lowcode.Condition.Build.{get}
use look_lowcode.Outcome.{
  raised, done, ◌>>=◌, require, bind-eq_done, then-eq_done, require-eq_done, done_inj,
}
use look_lowcode.Handoff.Host.{
  limit, format, identifier, checksum, type_error, key_error, value_error, Decoded, bad_json,
  long_integer, parsed_as, Attempt, Host, exactly, is_id,
}
use look_lowcode.Handoff.Finite.{canonical_sha256}
use look_lowcode.Handoff.Snapshots.{fields_in}
use look_lowcode.Handoff.Record.{validate}
use look_lowcode.Handoff.Store.{
  Payload, utf8, garbled, Stored, Files, max_bytes, payload_size, caught, decoded, expects,
  read_envelope, read_stored, read,
}

caught-eq_done : {A : Type 0} (m : Attempt A) (a : A) → caught m ≡ done a → m ≡ done a
unfolding caught
caught-eq_done (done a) b h = h
caught-eq_done (raised type_error) b h = cc
caught-eq_done (raised key_error) b h = cc
caught-eq_done (raised limit) b h = cc
caught-eq_done (raised e) b h = cc

dict_of_valid : (host : Host) (v : Value) → validate host v ≡ done tt → v ≡ obj (fields_in v)
unfolding validate
dict_of_valid host (obj fs) h = refl
dict_of_valid host null h = cc
dict_of_valid host (bool _) h = cc
dict_of_valid host (int _) h = cc
dict_of_valid host (float _) h = cc
dict_of_valid host (str _) h = cc
dict_of_valid host (arr _) h = cc

value_eq-str : (py : Runtime) (v : Value) (s : String) → value_eq py v (str s) ≡ true → v ≡ str s
unfolding value_eq
value_eq-str py (str t) s h = ap str ((eq_iff t s).0 h)
value_eq-str py null s h = cc
value_eq-str py (bool true) s h = cc
value_eq-str py (bool false) s h = cc
value_eq-str py (int _) s h = cc
value_eq-str py (float _) s h = cc
value_eq-str py (arr _) s h = cc
value_eq-str py (obj _) s h = cc

both_true : (a b : Bool) → (a && b) ≡ true → (a ≡ true) × (b ≡ true)
both_true true b h = (refl, h)
both_true false b h = cc

-- The envelope of a record that is valid, carries its own id and has the checksum that stands beside it.
pub record Sealed (host : Host) (token digest : String) (fs : Fields) (v : Value) : Type 0 where
  pub parts : Fields
  pub is_dict : v ≡ obj parts
  pub carries : get "record" null parts ≡ obj fs
  pub states : get "sha256" null parts ≡ str digest
  pub valid : validate host (obj fs) ≡ done tt
  pub summed : canonical_sha256 host (obj fs) ≡ done digest
  pub named : get "handoff_id" null fs ≡ str token

expected_digest :
    (py : Runtime) (e digest : String) → expects py (str e) digest ≡ true → (e ≡ "") ⊎ (e ≡ digest)
unfolding value_eq truthy
expected_digest py e digest h = elim (Bool-cases (e == "")) [
  | inl blank ↦ inl ((eq_iff e "").0 blank)
  | inr full ↦ inr ((eq_iff e digest).0 (ground arith))
]

abbrev own_id : Host → String → Fields → Bool
own_id host token g =
    value_eq host.runtime (get "handoff_id" null (fields_in (get "record" null g))) (str token)

abbrev own_digest : Host → Fields → String → Bool
own_digest host g digest = value_eq host.runtime (get "sha256" null g) (str digest)

abbrev seals : Host → String → String → Fields → String → Bool
seals host token e g digest =
    own_id host token g && own_digest host g digest && expects host.runtime (str e) digest

Sealed-of :
    (host : Host) (token e digest : String) (g fs : Fields)
    → validate host (get "record" null g) ≡ done tt
    → canonical_sha256 host (get "record" null g) ≡ done digest
    → seals host token e g digest ≡ true
    → fields_in (get "record" null g) ≡ fs
    → Sealed host token digest fs (obj g) × ((e ≡ "") ⊎ (e ≡ digest))
Sealed-of host token e digest g fs valid summed checks same =
    let wants = expects host.runtime (str e) digest in
    let (owns, wanted) = both_true (own_id host token g && own_digest host g digest) wants checks in
    let (own, stated) = both_true (own_id host token g) (own_digest host g digest) owns in
    let here : get "record" null g ≡ obj fs =
      dict_of_valid host (get "record" null g) valid ∙ ap obj same in
    (
      record {
        parts = g;
        is_dict = refl;
        carries = here;
        states = value_eq-str host.runtime (get "sha256" null g) digest stated;
        valid = ap (validate host) (sym here) ∙ valid;
        summed = ap (canonical_sha256 host) (sym here) ∙ summed;
        named =
            ap (get "handoff_id" null) (sym same)
            ∙ value_eq-str host.runtime (get "handoff_id" null (fields_in (get "record" null g)))
                token own;
      },
      expected_digest host.runtime e digest wanted,
    )

read_envelope-Sealed :
    (host : Host) (token e : String) (v : Value) (fs : Fields)
    → read_envelope host token (str e) v ≡ done fs
    → (digest : String) × Sealed host token digest fs v × ((e ≡ "") ⊎ (e ≡ digest))
unfolding read_envelope
read_envelope-Sealed host token e (obj g) fs h =
    let (whole, h1) = then-eq_done (require (exactly ("record" ∷ "sha256" ∷ []) g) format) _ h in
    let (valid, h2) = then-eq_done (validate host (get "record" null g)) _ h1 in
    let (digest, summed, h3) = bind-eq_done (canonical_sha256 host (get "record" null g)) _ h2 in
    let (checks, h4) =
      then-eq_done (require (seals host token e g digest) checksum)
        (done (fields_in (get "record" null g))) h3 in
    let (good, asked) =
      Sealed-of host token e digest g fs valid summed
        (require-eq_done (seals host token e g digest) checksum checks)
        (done_inj (fields_in (get "record" null g)) fs h4) in
    (digest, good, asked)
read_envelope-Sealed host token e null fs h = cc
read_envelope-Sealed host token e (bool _) fs h = cc
read_envelope-Sealed host token e (int _) fs h = cc
read_envelope-Sealed host token e (float _) fs h = cc
read_envelope-Sealed host token e (str _) fs h = cc
read_envelope-Sealed host token e (arr _) fs h = cc

-- A file that may be read: no link, of the allowed size, a text that decodes to a sealed envelope.
pub record Verified (host : Host) (files : Files) (token digest : String) (fs : Fields)
    : Type 0 where
  pub file : Stored
  pub payload : String
  pub whole : Value
  pub stands : lookup token files ≡ some file
  pub not_linked : file.linked ≡ false
  pub is_text : file.payload ≡ utf8 payload
  pub fits : leb (len payload) max_bytes ≡ true
  pub decodes : host.decode payload ≡ parsed_as whole
  pub is_sealed : Sealed host token digest fs whole

abbrev parsed : Decoded → Attempt Value
parsed bad_json = raised format
parsed long_integer = raised value_error
parsed (parsed_as v) = done v

parsed-eq_done : (found : Decoded) (v : Value) → parsed found ≡ done v → found ≡ parsed_as v
parsed-eq_done bad_json v h = cc
parsed-eq_done long_integer v h = cc
parsed-eq_done (parsed_as w) v h = ap parsed_as (done_inj w v h)

decoded-eq_done :
    (host : Host) (p : Payload) (v : Value)
    → decoded host p ≡ done v
    → (s : String) × (p ≡ utf8 s) × (host.decode s ≡ parsed_as v)
decoded-eq_done host (garbled n) v h = cc
decoded-eq_done host (utf8 s) v h = (s, refl, parsed-eq_done (host.decode s) v h)

read_stored-Verified :
    (host : Host) (files : Files) (token e : String) (fs : Fields) (found : Option Stored)
    → lookup token files ≡ found
    → read_stored host token (str e) found ≡ done fs
    → (digest : String) × Verified host files token digest fs × ((e ≡ "") ⊎ (e ≡ digest))
unfolding read_stored
read_stored-Verified host files token e fs none l h = cc
read_stored-Verified host files token e fs (some file) l h =
    let (allowed, h1) =
      then-eq_done (require (not file.linked && leb (payload_size file.payload) max_bytes) limit)
        (caught (decoded host file.payload >>= read_envelope host token (str e))) h in
    let (v, d, h2) =
      bind-eq_done (decoded host file.payload) (read_envelope host token (str e))
        (caught-eq_done _ fs h1) in
    let (s, text, whole) = decoded-eq_done host file.payload v d in
    let (digest, good, asked) = read_envelope-Sealed host token e v fs h2 in
    let (free, small) =
      both_true (not file.linked) (leb (payload_size file.payload) max_bytes)
        (require-eq_done _ limit allowed) in
    (
      digest,
      record {
        file = file;
        payload = s;
        whole = v;
        stands = l;
        not_linked = ground arith;
        is_text = text;
        fits = ap (λ p. leb (payload_size p) max_bytes) (sym text) ∙ small;
        decodes = whole;
        is_sealed = good;
      },
      asked,
    )

-- A record that `read` answers is valid, carries the id it was asked by and has the checksum that stands in
-- its file, which is no link and of at most 256 KiB; with an expected checksum, that is its checksum.
pub read-Verified :
    (host : Host) (files : Files) (token e : String) (fs : Fields)
    → read host files (str token) (str e) ≡ done fs
    → (digest : String) × Verified host files token digest fs × ((e ≡ "") ⊎ (e ≡ digest))
unfolding read
read-Verified host files token e fs h =
    let (_, h1) = then-eq_done (require (is_id token) identifier) _ h in
    let (_, h2) =
      then-eq_done (require _ checksum) (read_stored host token (str e) (lookup token files)) h1 in
    read_stored-Verified host files token e fs (lookup token files) refl h2
