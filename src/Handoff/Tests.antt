-- ===== src/Handoff/Tests.antt =====
-- Examples on the hand-off store (mcp/gxp_core/handoff_store.py).
mod Codec
use Prim.Native.Nat.{◌%◌}
use Prim.Native.String.{len}
use look_lowcode.Prelude.{
  String, true, false, some, List, [], ◌∷◌, pos, inr, ◌⊎◌, ◌≡◌, ◌+◌, ◌≤◌, length, all, All, arith,
  refl, Bool-cases, inl, if◌then◌else◌, ◌==◌, nat_beq,
}
use look_lowcode.Dict.{lookup, insert}
use look_lowcode.Json.{Value, null, int, str, arr, obj, nil, Fields, value_eq, number_test}
use look_lowcode.Condition.Text.{strip, reversed, truthy, text_of}
use look_lowcode.Condition.Tests.{small_runtime}
use look_lowcode.Outcome.{raised, done, ◌>>=◌, ◌>>◌, each}
use look_lowcode.Handoff.Host.{
  limit, value_error, unicode_error, long_integer, parsed_as, Host, is_id, is_hash, all_hex,
}
use look_lowcode.Handoff.Finite.{
  finite, finite_fields, finite_items, canonical_bytes, canonical_sha256,
}
use look_lowcode.Handoff.Snapshots.{fields, listed}
use look_lowcode.Handoff.Diagnosis.{
  validate_diagnosis, validate_issue, validate_evidence, diagnosis_text,
}
use look_lowcode.Handoff.ChangeSpec.{validate_change_spec}
use look_lowcode.Handoff.Record.{
  validate, validate_fields, identified, design_evidence, corresponding, snapshot_pairs,
}
use look_lowcode.Handoff.Compare.{compare_targets, differences, index_items}
use look_lowcode.Handoff.Summary.{summary, shown, take_chars}
use look_lowcode.Handoff.Store.{
  Files, utf8, Receipt, set_field, envelope, stamped, write, read, read_stored, read_envelope,
  caught,
}
use look_lowcode.Handoff.Written.{read-write}
use look_lowcode.Handoff.Verified.{Verified, read-Verified}
use look_lowcode.Handoff.Errors.{look-raised}
use look_lowcode.Handoff.Ordered.{insert_field, in_order, fields_in_order}
use look_lowcode.Handoff.Tests.Codec.{
  print_nat, print, encode, lead, rest_of, take_text, take_digits, parse_value, decode,
}
use look_lowcode.Handoff.Budget.{bytes_of}
use look_lowcode.Handoff.Limits.{list_page-Fits}
use look_lowcode.Handoff.Cursor.{cursor_id-joined}
use look_lowcode.Handoff.Ids.{every_id}
use look_lowcode.Handoff.Scan.{matching}
use look_lowcode.Handoff.Listing.{key, query, list-matching}
use look_lowcode.Handoff.Answers.{Readable, list_answers}
use mathlib.Core.List.{Perm}
use look_lowcode.Handoff.Newest.{Descends, newest_first_sorts}
use look_lowcode.Handoff.Clean.{nesting, is_clean, finite-Clean}
use look_lowcode.Handoff.Targets.{Target, normalize_targets, take_targets, target_of}
use look_lowcode.Handoff.Chosen.{is_bounded, alone, normalize_targets-Chosen}
use look_lowcode.Handoff.Page.{
  Page, unreadable, candidate, paths_after, look, summary_size, taken, scan, page_from, joined,
  is_handoff_error, cursor_id, wanted_text, list_page, insert_summary, newest_first, all_pages,
  list,
}
use look_lowcode.Texts.{sort_texts, insert_text}

abbrev digest : String
digest = "aaaaaaaaaaaaaaaaaaaaaaaaaaaaaaaaaaaaaaaaaaaaaaaaaaaaaaaaaaaaaaaa"

abbrev token : String
token = "0123456789abcdef0123456789abcdef"

abbrev issue : Value
issue = obj (
    fields (
      ("issue_id", str "I1")
      ∷ ("status", str "confirmed")
      ∷ ("symptom", str "The total is stale")
      ∷ (
        "evidence",
        arr (
            listed
              (obj (fields (("source", str "canvas") ∷ ("finding", str "no reload") ∷ [])) ∷ [])),
      )
      ∷ ("verification", str "pending")
      ∷ []))

-- A record of findings that proposes no change.
abbrev evidence : Fields
evidence = fields (
    ("schema_version", int (pos 1))
    ∷ ("handoff_id", str "")
    ∷ ("created_at", str "")
    ∷ ("record_kind", str "diagnosis_only")
    ∷ ("environment_scope", str digest)
    ∷ ("action", obj (fields (("ref_id", str "A1") ∷ [])))
    ∷ ("draft", null)
    ∷ (
      "diagnosis_source",
      obj (
          fields (
            ("design_id", str "D1") ∷ ("data_sha256", str digest) ∷ ("version", str "draft") ∷ [])),
    )
    ∷ ("targets", arr nil)
    ∷ ("diagnosis_targets", arr nil)
    ∷ ("source_target_differences", arr nil)
    ∷ (
      "change_spec",
      obj (
          fields (
            ("user_request", str "Why is the total stale?")
            ∷ ("summary", str "It is not reloaded")
            ∷ ("diagnosis", obj (fields (("issues", arr (listed (issue ∷ []))) ∷ [])))
            ∷ [])),
    )
    ∷ [])

abbrev saved : Fields
saved = stamped token "2026-01-01" evidence

abbrev host : Host
host = record {
  runtime = small_runtime;
  encode = λ v. "{}";
  printable = λ v. true;
  decode = λ s. if s == "{}" then parsed_as (envelope saved digest) else long_integer;
  sha256 = λ s. digest;
}

abbrev receipt : Receipt
receipt = record { handoff_id = token; sha256 = digest; shown = summary small_runtime saved digest }

abbrev store : Files
store = (token, record { linked = false; payload = utf8 "{}" }) ∷ []

write-evidence : write host token "2026-01-01" evidence [] ≡ done (receipt, store)
unfolding write insert validate validate_fields identified design_evidence corresponding
    snapshot_pairs compare_targets differences index_items validate_change_spec validate_diagnosis
    validate_issue validate_evidence diagnosis_text finite finite_items finite_fields
    canonical_bytes canonical_sha256 is_id is_hash all_hex set_field stamped value_eq strip reversed
    text_of truthy number_test each
write-evidence = refl

token-is_id : is_id token ≡ true
unfolding is_id all_hex
token-is_id = refl

digest-is_hash : is_hash digest ≡ true
unfolding is_hash all_hex
digest-is_hash = refl

-- A host with a codec, whose digests tell texts of even and odd length apart.
abbrev parity_digest : String → String
parity_digest s =
    if nat_beq (len s % 2) 0
    then digest
    else "bbbbbbbbbbbbbbbbbbbbbbbbbbbbbbbbbbbbbbbbbbbbbbbbbbbbbbbbbbbbbbbb"

abbrev json_host : Host
json_host = record {
  runtime = small_runtime;
  encode = encode;
  printable = λ v. true;
  decode = decode;
  sha256 = parity_digest;
}

parity_digest-is_hash : (s : String) → is_hash (parity_digest s) ≡ true
unfolding is_hash all_hex
parity_digest-is_hash s = elim (Bool-cases (nat_beq (len s % 2) 0)) [
  | inl even ↦ rw even refl
  | inr odd ↦ rw odd refl
]

abbrev json_digest : String
json_digest = parity_digest (encode (obj saved))

abbrev json_receipt : Receipt
json_receipt = record {
  handoff_id = token;
  sha256 = json_digest;
  shown = summary small_runtime saved json_digest;
}

abbrev json_store : Files
json_store =
    (token, record { linked = false; payload = utf8 (encode (envelope saved json_digest)) }) ∷ []

write-json : write json_host token "2026-01-01" evidence [] ≡ done (json_receipt, json_store)
unfolding write insert validate validate_fields identified design_evidence corresponding
    snapshot_pairs compare_targets differences index_items validate_change_spec validate_diagnosis
    validate_issue validate_evidence diagnosis_text finite finite_items finite_fields
    canonical_bytes canonical_sha256 is_id is_hash all_hex set_field stamped value_eq strip reversed
    text_of truthy number_test each print in_order insert_field print_nat
write-json = refl

encode-in_order : encode (in_order (obj saved)) ≡ encode (obj saved)
unfolding print in_order insert_field print_nat set_field stamped
encode-in_order = refl

decode-envelope :
    decode (encode (envelope saved json_digest)) ≡ parsed_as (in_order (envelope saved json_digest))
unfolding print in_order insert_field print_nat set_field stamped decode parse_value lead rest_of
    take_text take_digits
decode-envelope = refl

read-write_example :
    (validate json_host (obj saved) ≡ done tt)
    × (read json_host json_store (str token) (str json_digest)
        ≡ caught (validate json_host (obj (fields_in_order saved)) >> done (fields_in_order saved)))
read-write_example =
    read-write json_host token "2026-01-01" json_digest evidence [] json_store json_receipt
      token-is_id parity_digest-is_hash encode-in_order refl decode-envelope (inr refl) write-json

-- The record in the order of its keys is valid, so that reading it back gives it.
validate-in_order : validate json_host (obj (fields_in_order saved)) ≡ done tt
unfolding validate validate_fields identified design_evidence corresponding snapshot_pairs
    compare_targets differences index_items validate_change_spec validate_diagnosis validate_issue
    validate_evidence diagnosis_text finite finite_items finite_fields canonical_bytes
    canonical_sha256 is_id is_hash all_hex set_field stamped value_eq strip reversed text_of truthy
    number_test each print in_order insert_field print_nat
validate-in_order = refl

read-saved : read host store (str token) (str digest) ≡ done saved
unfolding validate validate_fields identified design_evidence corresponding snapshot_pairs
    compare_targets differences index_items validate_change_spec validate_diagnosis validate_issue
    validate_evidence diagnosis_text finite finite_items finite_fields canonical_bytes
    canonical_sha256 is_id is_hash all_hex set_field stamped value_eq strip reversed text_of truthy
    number_test each read read_stored read_envelope caught lookup
read-saved = refl

read-Verified_example :
    (d : String) × Verified host store token d saved × ((digest ≡ "") ⊎ (digest ≡ d))
read-Verified_example = read-Verified host store token digest saved read-saved

-- A linked file.
abbrev linked_store : Files
linked_store = (token, record { linked = true; payload = utf8 "{}" }) ∷ []

read_linked : read host linked_store (str token) (str "") ≡ raised limit
unfolding validate validate_fields identified design_evidence corresponding snapshot_pairs
    compare_targets differences index_items validate_change_spec validate_diagnosis validate_issue
    validate_evidence diagnosis_text finite finite_items finite_fields canonical_bytes
    canonical_sha256 is_id is_hash all_hex set_field stamped value_eq strip reversed text_of truthy
    number_test each read read_stored read_envelope caught lookup
read_linked = refl

-- A file with an integer that is too long for Python's decoder.
abbrev long_store : Files
long_store = (token, record { linked = false; payload = utf8 "[1]" }) ∷ []

read_long : read host long_store (str token) (str "") ≡ raised value_error
unfolding validate is_id is_hash all_hex strip text_of truthy read read_stored read_envelope caught
    lookup
read_long = refl

look-raised_example :
    (is_handoff_error value_error ≡ true)
      × (look host long_store (query "A1" "") token ≡ done unreadable)
    ⊎ ((value_error ≡ value_error) ⊎ (value_error ≡ unicode_error))
      × (look host long_store (query "A1" "") token ≡ raised value_error)
look-raised_example = look-raised host long_store (query "A1" "") token value_error read_long

looked_at_linked : look host linked_store (query "A1" "") token ≡ done unreadable
unfolding validate is_id is_hash all_hex strip text_of truthy read read_stored read_envelope caught
    lookup look
looked_at_linked = refl

abbrev page : Page
page = record { candidates = receipt.shown ∷ []; has_more = false; next_cursor = "" }

page_of_store :
    list_page host store (str "A1") (str "") (str "") (int (pos 1)) (int (pos 2048)) ≡ done page
unfolding validate validate_fields identified design_evidence corresponding snapshot_pairs
    compare_targets differences index_items validate_change_spec validate_diagnosis validate_issue
    validate_evidence diagnosis_text finite finite_items finite_fields canonical_bytes
    canonical_sha256 is_id is_hash all_hex set_field stamped value_eq strip reversed text_of truthy
    number_test each read read_stored read_envelope caught lookup list_page page_from scan taken
    look cursor_id paths_after sort_texts insert_text summary shown take_chars
page_of_store = refl

list_page-Fits_example : (length page.candidates ≤ 1) × (2 + bytes_of host page.candidates ≤ 2048)
list_page-Fits_example =
    list_page-Fits host store (str "A1") (str "") (str "") 1 2048 page page_of_store

wanted_ok : wanted_text small_runtime (str "A1") ≡ done "A1"
unfolding strip reversed
wanted_ok = refl

key_ok : canonical_sha256 host (key "A1" "") ≡ done digest
unfolding canonical_sha256 canonical_bytes finite finite_fields
key_ok = refl

looked : look host store (query "A1" "") token ≡ done (candidate receipt.shown)
unfolding validate validate_fields identified design_evidence corresponding snapshot_pairs
    compare_targets differences index_items validate_change_spec validate_diagnosis validate_issue
    validate_evidence diagnosis_text finite finite_items finite_fields canonical_bytes
    canonical_sha256 is_id is_hash all_hex set_field stamped value_eq strip reversed text_of truthy
    number_test each read read_stored read_envelope caught lookup list_page page_from scan taken
    look cursor_id paths_after sort_texts insert_text summary shown take_chars
looked = refl

sized : summary_size host receipt.shown ≡ done 3
unfolding validate validate_fields identified design_evidence corresponding snapshot_pairs
    compare_targets differences index_items validate_change_spec validate_diagnosis validate_issue
    validate_evidence diagnosis_text finite finite_items finite_fields canonical_bytes
    canonical_sha256 is_id is_hash all_hex set_field stamped value_eq strip reversed text_of truthy
    number_test each summary shown take_chars
sized = refl

store_is_Readable : All (Readable host store (query "A1" "")) (every_id store)
unfolding sort_texts insert_text is_id all_hex
store_is_Readable = ((candidate receipt.shown, looked, (3, sized, omega arith)), tt)

list_answers_example :
    (vs : List Value) × (matching host store (query "A1" "") (every_id store) ≡ done vs)
    × (list host store (str "A1") (str "") ≡ done (some (newest_first vs)))
list_answers_example =
    list_answers host store "A1" "" digest (λ s. refl) refl wanted_ok refl key_ok store_is_Readable

list_of_store : list host store (str "A1") (str "") ≡ done (some (receipt.shown ∷ []))
unfolding validate validate_fields identified design_evidence corresponding snapshot_pairs
    compare_targets differences index_items validate_change_spec validate_diagnosis validate_issue
    validate_evidence diagnosis_text finite finite_items finite_fields canonical_bytes
    canonical_sha256 is_id is_hash all_hex set_field stamped value_eq strip reversed text_of truthy
    number_test each read read_stored read_envelope caught lookup list_page page_from scan taken
    look cursor_id paths_after sort_texts insert_text summary shown take_chars list all_pages
    newest_first insert_summary
list_of_store = refl

list-matching_example :
    (vs : List Value) × (matching host store (query "A1" "") (every_id store) ≡ done vs)
    × (some (receipt.shown ∷ []) ≡ some (newest_first vs))
list-matching_example =
    list-matching host store "A1" "" (λ s. refl) refl (some (receipt.shown ∷ [])) list_of_store

finite_evidence : finite small_runtime 0 (obj saved) ≡ done tt
unfolding validate validate_fields identified design_evidence corresponding snapshot_pairs
    compare_targets differences index_items validate_change_spec validate_diagnosis validate_issue
    validate_evidence diagnosis_text finite finite_items finite_fields canonical_bytes
    canonical_sha256 is_id is_hash all_hex set_field stamped value_eq strip reversed text_of truthy
    number_test each
finite_evidence = refl

finite-Clean_example : (0 + nesting (obj saved) ≤ 40) × (is_clean small_runtime (obj saved) ≡ true)
finite-Clean_example = finite-Clean small_runtime 0 (obj saved) finite_evidence

abbrev chosen : Value
chosen = arr (listed (obj (fields (("group_key", str "g") ∷ ("node_key", str "n") ∷ [])) ∷ []))

abbrev target : Target
target = record { group_key = "g"; node_key = "n" }

target_taken : normalize_targets chosen ≡ done (target ∷ [])
unfolding normalize_targets take_targets target_of
target_taken = refl

normalize_targets-Chosen_example :
    (1 ≤ 1) × (1 ≤ 10) × (all is_bounded (target ∷ []) ≡ true) × (alone (target ∷ []) ≡ true)
normalize_targets-Chosen_example = normalize_targets-Chosen chosen (target ∷ []) target_taken

cursor_id-joined_example : cursor_id digest (str (joined token digest)) ≡ done token
cursor_id-joined_example = cursor_id-joined token digest token-is_id refl

abbrev summary_at : String → Value
summary_at time = obj (fields (("created_at", str time) ∷ []))

newest_first_sorts_example :
    Descends (newest_first (summary_at "1" ∷ summary_at "2" ∷ []))
    × Perm
        (summary_at "1" ∷ summary_at "2" ∷ [])
        (newest_first (summary_at "1" ∷ summary_at "2" ∷ []))
newest_first_sorts_example = newest_first_sorts (summary_at "1" ∷ summary_at "2" ∷ [])
