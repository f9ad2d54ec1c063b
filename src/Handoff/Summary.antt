-- ===== src/Handoff/Summary.antt =====
-- `HandoffStore.summary` of mcp/gxp_core/handoff_store.py.
use Prim.Native.String.{count, ◌++◌}
use look_lowcode.Prelude.{
  ℕ, zero, suc, ◌+◌, String, Bool, false, ◌||◌, List, [], ◌∷◌, pos, length, ltb, any, one_of,
  if◌then◌else◌,
}
use look_lowcode.Json.{Runtime, Value, null, bool, int, str, arr, obj, nil, Fields, end, field}
use look_lowcode.Condition.Text.{text_of, truthy}
use look_lowcode.Condition.Build.{get}
use look_lowcode.Handoff.Host.{elements}
use look_lowcode.Handoff.Snapshots.{fields, fields_in, listed}
use look_lowcode.Handoff.Record.{is_kind, items_in, default_kind}

-- value[:n], in characters
unfoldable pub take_chars : ℕ → String → String
take_chars zero s = ""
take_chars (suc n) String.[] = ""
take_chars (suc n) (String.◌∷◌ c s) = String.◌∷◌ c (take_chars n s)

-- What `display` shows, and whether it cuts.
unfoldable pub shown : Runtime → ℕ → Value → String
unfolding take_chars
shown py limit v =
    let s = text_of py v in if ltb limit (count s) then take_chars limit s ++ "…" else s

abbrev pub is_cut : Runtime → ℕ → Value → Bool
is_cut py limit v = ltb limit (count (text_of py v))

abbrev action_limit : String → ℕ
action_limit key = if one_of key ("ref_id" ∷ "action_code" ∷ []) then 200 else 256

abbrev design_limit : String → ℕ
design_limit key = 200

abbrev pub shown_fields : Runtime → (String → ℕ) → Fields → Fields
shown_fields py limit end = end
shown_fields py limit (field k v fs) =
    field k (str (shown py (limit k) v)) (shown_fields py limit fs)

abbrev any_cut : Runtime → (String → ℕ) → Fields → Bool
any_cut py limit end = false
any_cut py limit (field k v fs) = is_cut py (limit k) v || any_cut py limit fs

abbrev has_value : String → String → Value → Bool
has_value key name v = is_kind name (get key null (fields_in v))

-- sum(issue[key] == name for issue in issues)
abbrev tally : String → String → List Value → ℕ
tally key name [] = 0
tally key name (v ∷ vs) = (if has_value key name v then 1 else 0) + tally key name vs

abbrev number : ℕ → Value
number n = int (pos n)

abbrev issue_summary : Runtime → Value → Value
issue_summary py issue = obj (
    fields (
      ("issue_id", get "issue_id" null (fields_in issue))
      ∷ ("status", get "status" null (fields_in issue))
      ∷ ("verification", get "verification" null (fields_in issue))
      ∷ ("symptom", str (shown py 240 (get "symptom" null (fields_in issue))))
      ∷ []))

abbrev pub first_issues : ℕ → List Value → List Value
first_issues zero vs = []
first_issues (suc n) [] = []
first_issues (suc n) (v ∷ vs) = v ∷ first_issues n vs

abbrev issue_summaries : Runtime → List Value → List Value
issue_summaries py [] = []
issue_summaries py (v ∷ vs) = issue_summary py v ∷ issue_summaries py vs

abbrev symptom_cut : Runtime → List Value → Bool
symptom_cut py = any (λ v. is_cut py 240 (get "symptom" null (fields_in v)))

abbrev list_in : String → Fields → List Value
list_in key fs = elements (items_in (get key (arr nil) fs))

abbrev diagnosis_status : List Value → List Value → Value
diagnosis_status issues unresolved = obj (
    fields (
      ("issue_count", number (length issues))
      ∷ ("confirmed_count", number (tally "status" "confirmed" issues))
      ∷ ("candidate_count", number (tally "status" "candidate" issues))
      ∷ (
        "verification_counts",
        obj (
            fields (
              ("static_confirmed", number (tally "verification" "static_confirmed" issues))
              ∷ ("runtime_verified", number (tally "verification" "runtime_verified" issues))
              ∷ ("pending", number (tally "verification" "pending" issues))
              ∷ [])),
      )
      ∷ ("unresolved_count", number (length unresolved))
      ∷ []))

abbrev shown_draft : Runtime → Value → Value
shown_draft py draft =
    if truthy draft then obj (shown_fields py design_limit (fields_in draft)) else null

abbrev summary_cut : Runtime → Fields → Fields → List Value → Bool
summary_cut py fs spec issues =
    any_cut py action_limit (fields_in (get "action" null fs))
    || any_cut py design_limit (fields_in (get "draft" null fs))
    || any_cut py design_limit (fields_in (get "diagnosis_source" null fs))
    || is_cut py 512 (get "summary" null spec)
    || symptom_cut py (first_issues 3 issues)
    || ltb 3 (length issues)

-- The summary of a record that `_validate` accepts.
unfoldable pub summary : Runtime → Fields → String → Value
unfolding shown
summary py fs checksum =
    let spec = fields_in (get "change_spec" null fs) in
    let diagnosis = fields_in (get "diagnosis" (obj end) spec) in
    let issues = list_in "issues" diagnosis in
    obj (
      fields (
        ("handoff_id", get "handoff_id" null fs)
        ∷ ("sha256", str checksum)
        ∷ ("created_at", get "created_at" null fs)
        ∷ ("record_kind", get "record_kind" default_kind fs)
        ∷ ("environment_scope", get "environment_scope" null fs)
        ∷ ("action", obj (shown_fields py action_limit (fields_in (get "action" null fs))))
        ∷ ("draft", shown_draft py (get "draft" null fs))
        ∷ (
          "diagnosis_source",
          obj (shown_fields py design_limit (fields_in (get "diagnosis_source" null fs))),
        )
        ∷ ("target_count", number (length (list_in "targets" fs)))
        ∷ ("summary", str (shown py 512 (get "summary" null spec)))
        ∷ ("diagnosis_status", diagnosis_status issues (list_in "unresolved" diagnosis))
        ∷ ("issue_summaries", arr (listed (issue_summaries py (first_issues 3 issues))))
        ∷ ("summary_truncated", bool (summary_cut py fs spec issues))
        ∷ []))
