-- ===== src/Handoff/Page.antt =====
-- `HandoffStore.list_page` and `HandoffStore.list` of mcp/gxp_core/handoff_store.py.
use Prim.Native.String.{len, count, compare, ◌++◌ as append}
use text.Mathlib.Text.{is_le}
use look_lowcode.Prelude.{
  ℕ, zero, suc, ◌+◌, ◌*◌, String, Bool, true, false, not, ◌&&◌, ◌||◌, Option, none, some, List, [],
  ◌∷◌, ◌++◌, pos, length, ltb, leb, nat_beq, ◌==◌, if◌then◌else◌,
}
use look_lowcode.Json.{Runtime, Value, null, int, str, obj, Fields, value_eq}
use look_lowcode.Condition.Build.{get}
use look_lowcode.Condition.Text.{strip}
use look_lowcode.Texts.{precedes, sort_texts}
use look_lowcode.Outcome.{raised, done, ◌>>=◌, ◌>>◌, require}
use look_lowcode.Handoff.Host.{
  Failure, limit, identifier, environment, cursor, response_limit, type_error, key_error,
  value_error, unicode_error, Attempt, Host, in_names, is_id, is_hash,
}
use look_lowcode.Handoff.Finite.{canonical_bytes, canonical_sha256}
use look_lowcode.Handoff.Snapshots.{fields, fields_in}
use look_lowcode.Handoff.Summary.{take_chars, summary}
use look_lowcode.Handoff.Store.{Files, read}

pub record Page : Type 0 where
  pub candidates : List Value
  pub has_more : Bool
  pub next_cursor : String

-- What a lookup asks for.
pub record Lookup : Type 0 where
  pub wanted : String
  pub scope : String
  pub most : ℕ
  pub max_bytes : ℕ

-- The loop's variables.
pub record Progress : Type 0 where
  pub summaries : List Value
  pub used : ℕ
  pub last : String

abbrev pub file_names : Files → List String
file_names [] = []
file_names ((name, file) ∷ rest) = name ∷ file_names rest

abbrev pub ids_after : String → List String → List String
ids_after after [] = []
ids_after after (name ∷ rest) =
    let others = ids_after after rest in
    if is_id name && precedes after name then name ∷ others else others

-- `paths`
unfoldable pub paths_after : String → Files → List String
paths_after after files = sort_texts (ids_after after (file_names files))

abbrev pub first_names : ℕ → List String → List String
first_names zero names = []
first_names (suc n) [] = []
first_names (suc n) (name ∷ names) = name ∷ first_names n names

-- `except (HandoffError, OSError)`
abbrev pub is_handoff_error : Failure → Bool
is_handoff_error type_error = false
is_handoff_error key_error = false
is_handoff_error value_error = false
is_handoff_error unicode_error = false
is_handoff_error _ = true

-- What the loop finds at one path.
pub data Found : Type 0 where
  unreadable other : Found
  candidate : Value → Found

-- identifier in {a, b}
abbrev in_pair : String → Value → Value → Attempt Bool
in_pair wanted a b = do
  first ← in_names a (wanted ∷ [])
  second ← in_names b (wanted ∷ [])
  done (first || second)

abbrev in_scope : Runtime → String → Fields → Bool
in_scope py scope fs = scope == "" || value_eq py (get "environment_scope" null fs) (str scope)

abbrev found_if : Host → Lookup → Fields → Bool → Attempt Found
found_if host q fs false = done other
found_if host q fs true =
    if in_scope host.runtime q.scope fs
    then (do
      digest ← canonical_sha256 host (obj fs)
      done (candidate (summary host.runtime fs digest)))
    else done other

abbrev pub found_in : Host → Lookup → Attempt Fields → Attempt Found
found_in host q (raised e) = if is_handoff_error e then done unreadable else raised e
found_in host q (done fs) = do
  same ←
      in_pair q.wanted (get "ref_id" null (fields_in (get "action" null fs)))
        (get "action_code" null (fields_in (get "action" null fs)))
  found_if host q fs same

unfoldable pub look : Host → Files → Lookup → String → Attempt Found
unfolding read
look host files q name = found_in host q (read host files (str name) (str ""))

-- len(canonical_bytes(summary)) + 1
abbrev pub summary_size : Host → Value → Attempt ℕ
summary_size host v = do payload ← canonical_bytes host v; done (len payload + 1)

abbrev pub is_empty : List Value → Bool
is_empty [] = true
is_empty (_ ∷ _) = false

-- `used + size` bytes are within the budget or end the page.
abbrev pub counted : Lookup → String → Value → Progress → ℕ → Attempt (Progress × Bool)
counted q name v s size =
    if ltb q.max_bytes (s.used + size)
    then (if is_empty s.summaries then raised response_limit else done (s, true))
    else done (
      record { summaries = s.summaries ++ v ∷ []; used = s.used + size; last = name },
      leb q.most (length (s.summaries ++ v ∷ [])),
    )

-- A step of the loop: its variables, and whether it breaks there.
unfoldable pub taken : Host → Lookup → String → Found → Progress → Attempt (Progress × Bool)
taken host q name unreadable s = done (record s { last = name }, false)
taken host q name other s = done (record s { last = name }, leb q.most (length s.summaries))
taken host q name (candidate v) s = do size ← summary_size host v; counted q name v s size

abbrev pub carry_on : (Progress → Attempt Progress) → Progress × Bool → Attempt Progress
carry_on next (s, true) = done s
carry_on next (s, false) = next s

unfoldable pub scan : Host → Files → Lookup → List String → Progress → Attempt Progress
unfolding look taken
scan host files q [] s = done s
scan host files q (name ∷ names) s = do
  what ← look host files q name
  step ← taken host q name what s
  carry_on (scan host files q names) step

-- `paths and paths[-1].stem > last_scanned`
abbrev pub more_after : String → List String → Bool
more_after last [] = false
more_after last (name ∷ []) = precedes last name
more_after last (name ∷ second ∷ names) = more_after last (second ∷ names)

-- last_scanned + "." + scope
abbrev pub joined : String → String → String
joined last digest = append last (append "." digest)

unfoldable pub page_from : Host → Files → Lookup → String → String → Attempt Page
unfolding scan paths_after
page_from host files q digest after = do
  let names = paths_after after files
  s ← scan host files q (first_names 200 names) (record { summaries = []; used = 2; last = after })
  let more = more_after s.last names
  done (record {
    candidates = s.summaries;
    has_more = more;
    next_cursor = if more then joined s.last digest else "";
  })

-- value[n:], in characters
unfoldable pub drop_chars : ℕ → String → String
drop_chars zero s = s
drop_chars (suc n) String.[] = ""
drop_chars (suc n) (String.◌∷◌ c s) = drop_chars n s

-- The last id that a cursor binds to this lookup.
unfoldable pub cursor_id : String → Value → Attempt String
unfolding take_chars drop_chars
cursor_id digest (str s) = if s == "" then done "" else (do
  require
      (nat_beq (count s) 97
        && take_chars 1 (drop_chars 32 s) == "."
        && is_id (take_chars 32 s)
        && drop_chars 33 s == digest)
      cursor
  done (take_chars 32 s))
cursor_id digest _ = raised cursor

-- A number between two bounds, for a value of exactly that type.
abbrev pub between : ℕ → ℕ → Value → Attempt ℕ
between low high (int (pos n)) = do require (leb low n && leb n high) limit; done n
between low high _ = raised limit

-- An identifier of 1 to 200 characters that are not all spaces.
abbrev pub wanted_text : Runtime → Value → Attempt String
wanted_text py (str s) = do
  require (not (strip py.is_space s == "") && leb (count s) 200) identifier
  done s
wanted_text py _ = raised identifier

abbrev pub scope_text : Value → Attempt String
scope_text (str s) = do require (s == "" || is_hash s) environment; done s
scope_text _ = raised environment

unfoldable pub list_page : Host → Files → Value → Value → Value → Value → Value → Attempt Page
unfolding page_from cursor_id
list_page host files identifier_value environment_value cursor_value limit_value bytes_value = do
  wanted ← wanted_text host.runtime identifier_value
  scope ← scope_text environment_value
  most ← between 1 50 limit_value
  max_bytes ← between 1024 (48 * 1024) bytes_value
  digest ←
      canonical_sha256 host
        (obj (fields (("identifier", str wanted) ∷ ("environment", str scope) ∷ [])))
  after ← cursor_id digest cursor_value
  page_from host files
      (record { wanted = wanted; scope = scope; most = most; max_bytes = max_bytes }) digest after

-- The texts of `created_at`: the summaries are of records that have one.
abbrev pub created_text : Value → String
created_text v = elim (get "created_at" null (fields_in v)) [ str s ↦ s | _ ↦ "" ]

unfoldable pub insert_summary : Value → List Value → List Value
insert_summary v [] = v ∷ []
insert_summary v (w ∷ ws) =
    if is_le (compare (created_text w) (created_text v))
    then v ∷ w ∷ ws
    else w ∷ insert_summary v ws

-- sorted(summaries, key=created_at, reverse=True), which keeps the order of equals
unfoldable pub newest_first : List Value → List Value
unfolding insert_summary
newest_first [] = []
newest_first (v ∷ vs) = insert_summary v (newest_first vs)

abbrev pub with_earlier : List Value → Option (List Value) → Option (List Value)
with_earlier vs none = none
with_earlier vs (some ws) = some (vs ++ ws)

abbrev pub sorted_option : Option (List Value) → Option (List Value)
sorted_option none = none
sorted_option (some vs) = some (newest_first vs)

-- The rest of the loop of `list`, after a page.
abbrev pub after_page :
    (Value → Attempt (Option (List Value))) → Page → Attempt (Option (List Value))
after_page later page =
    if page.has_more
    then (later (str page.next_cursor) >>= λ rest. done (with_earlier page.candidates rest))
    else done (some page.candidates)

-- The loop of `list` over the pages; `none` means that the fuel ran out.
unfoldable pub all_pages : Host → Files → Value → Value → ℕ → Value → Attempt (Option (List Value))
unfolding list_page
all_pages host files wanted scope zero at = done none
all_pages host files wanted scope (suc fuel) at = do
  page ← list_page host files wanted scope at (int (pos 50)) (int (pos (48 * 1024)))
  after_page (all_pages host files wanted scope fuel) page

unfoldable pub list : Host → Files → Value → Value → Attempt (Option (List Value))
unfolding all_pages newest_first
list host files wanted scope = do
  found ← all_pages host files wanted scope (suc (length files)) (str "")
  done (sorted_option found)
