-- ===== src/Handoff/Diagnosis.antt =====
-- `_diagnosis_text` and `_validate_diagnosis` of mcp/gxp_core/handoff_store.py.
use Prim.Native.String.{len, count}
use look_lowcode.Prelude.{
  String, Bool, true, false, not, ◌&&◌, ◌||◌, Option, none, some, List, [], ◌∷◌, leb,
}
use look_lowcode.Json.{Runtime, Value, null, str, arr, obj, Fields, end, field, field_at}
use look_lowcode.Condition.Build.{get}
use look_lowcode.Outcome.{raised, done, ◌>>=◌, ◌>>◌, require, each}
use look_lowcode.Handoff.Host.{
  limit, change_spec, unicode_error, Attempt, text_encodes, elements, size, within, has_field,
  has_fields, in_names, is_text, has_text,
}
use look_lowcode.Handoff.Finite.{finite}

-- The limits of a text; an identifier has at most 200 characters.
abbrev pub text_fits : Bool → Value → Bool
text_fits identifier (str s) = leb (len s) 4096 && (not identifier || leb (count s) 200)
text_fits identifier _ = false

unfoldable pub diagnosis_text : Runtime → Bool → Value → Attempt (Unit {0})
diagnosis_text py identifier v =
    require (has_text py v) change_spec
    >> require (text_encodes py v) unicode_error
    >> require (text_fits identifier v) limit

abbrev pub plain_text : Runtime → Value → Attempt (Unit {0})
plain_text py v = diagnosis_text py false v

abbrev optional_fields : List String
optional_fields = "expected" ∷ "root_cause" ∷ "solution" ∷ []

abbrev required_fields : List String
required_fields = "issue_id" ∷ "status" ∷ "symptom" ∷ "evidence" ∷ "verification" ∷ []

abbrev issue_fields : List String
issue_fields =
    "issue_id" ∷ "status" ∷ "symptom" ∷ "evidence" ∷ "verification" ∷ "expected" ∷ "root_cause"
    ∷ "solution" ∷ []

abbrev evidence_fields : List String
evidence_fields = "source" ∷ "finding" ∷ "group_key" ∷ "node_key" ∷ "design_id" ∷ []

abbrev same_bool : Bool → Bool → Bool
same_bool true b = b
same_bool false b = not b

abbrev optional_text : Runtime → Fields → String → Attempt (Unit {0})
optional_text py fs key = elim (field_at key fs) [ none ↦ done tt | some v ↦ plain_text py v ]

abbrev field_values : Fields → List Value
field_values end = []
field_values (field k v fs) = v ∷ field_values fs

unfoldable pub validate_evidence : Runtime → Value → Attempt (Unit {0})
validate_evidence py (obj fs) =
    require
      (has_fields ("source" ∷ "finding" ∷ []) fs
        && within evidence_fields fs
        && same_bool (has_field "group_key" fs) (has_field "node_key" fs))
      change_spec
    >> each (plain_text py) (field_values fs)
validate_evidence py _ = raised change_spec

-- isinstance(value, str) and value in names
abbrev named_as : Value → List String → Attempt (Unit {0})
named_as v names = do
  require (is_text v) change_spec
  known ← in_names v names
  require known change_spec

abbrev evidence_list : Runtime → Value → Attempt (Unit {0})
evidence_list py (arr xs) =
    require (leb 1 (size xs) && leb (size xs) 20) change_spec
    >> each (validate_evidence py) (elements xs)
evidence_list py _ = raised change_spec

unfoldable pub validate_issue : Runtime → Value → Attempt (Unit {0})
unfolding diagnosis_text validate_evidence
validate_issue py (obj fs) =
    require (has_fields required_fields fs && within issue_fields fs) change_spec
    >> diagnosis_text py true (get "issue_id" null fs)
    >> plain_text py (get "symptom" null fs)
    >> each (optional_text py fs) optional_fields
    >> named_as (get "status" null fs) ("confirmed" ∷ "candidate" ∷ [])
    >> named_as (get "verification" null fs)
        ("static_confirmed" ∷ "runtime_verified" ∷ "pending" ∷ [])
    >> evidence_list py (get "evidence" null fs)
validate_issue py _ = raised change_spec

abbrev issue_list : Runtime → Value → Attempt (Unit {0})
issue_list py (arr xs) =
    require (leb 1 (size xs) && leb (size xs) 20) change_spec
    >> each (validate_issue py) (elements xs)
issue_list py _ = raised change_spec

abbrev text_list : Runtime → Option Value → Attempt (Unit {0})
text_list py none = done tt
text_list py (some (arr xs)) =
    require (leb (size xs) 50) change_spec >> each (plain_text py) (elements xs)
text_list py (some _) = raised change_spec

abbrev diagnosis_parts : Runtime → Value → Attempt (Unit {0})
diagnosis_parts py (obj fs) =
    require (within ("issues" ∷ "excluded" ∷ "unresolved" ∷ []) fs) change_spec
    >> issue_list py (get "issues" null fs)
    >> text_list py (field_at "excluded" fs)
    >> text_list py (field_at "unresolved" fs)
diagnosis_parts py _ = raised change_spec

unfoldable pub validate_diagnosis : Runtime → Value → Attempt (Unit {0})
unfolding validate_issue
validate_diagnosis py v = finite py 0 v >> diagnosis_parts py v
