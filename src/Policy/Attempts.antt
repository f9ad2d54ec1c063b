-- ===== src/Policy/Attempts.antt =====
-- Candidate relations under the current policy: `_apply_current_policy` and `_candidate_resolution` of
-- mcp/gxp_core/schema_snapshot.py.
use look_lowcode.Prelude.{
  String, Bool, true, false, not, ◌&&◌, ◌||◌, Option, none, some, List, [], ◌∷◌, any, one_of,
  if◌then◌else◌,
}
use look_lowcode.Policy.Snapshot.{Policy, Validated, policy_allows}

-- `evidence` where it is missing or empty, and whether it has passed.
pub data Evidence : Type 0 where
  lacking : Evidence
  present : Bool → Evidence

-- An attempt to validate a candidate; a missing status is `none`.
pub record Candidate : Type 0 where
  pub relation : Validated
  pub status : Option String
  pub evidence : Evidence
  pub candidate_truncated : Bool

abbrev pub has_evidence : Candidate → Bool
has_evidence a = elim a.evidence [ lacking ↦ false | present _ ↦ true ]

abbrev pub has_passed : Candidate → Bool
has_passed a = elim a.evidence [ lacking ↦ false | present passed ↦ passed ]

abbrev pub in_statuses : List String → Option String → Bool
in_statuses statuses none = false
in_statuses statuses (some s) = one_of s statuses

abbrev completed : List String
completed =
    "verified" ∷ "data_verified" ∷ "ambiguous" ∷ "unmatched_values" ∷ "insufficient_distinct_values"
    ∷ "rejected_by_policy" ∷ []

abbrev pub is_rejected_attempt : Candidate → Bool
is_rejected_attempt a = in_statuses ("rejected_by_policy" ∷ []) a.status

abbrev pub with_status : String → Candidate → Candidate
with_status s a = record a { status = some s }

-- The loop's body in `_apply_current_policy`.
unfoldable pub marked : Policy → Candidate → Candidate
unfolding policy_allows
marked policy a =
    if one_of a.relation.relation_id policy.rejections
    then with_status "rejected_by_policy" a
    else if is_rejected_attempt a
    then with_status "policy_changed" a
    else if has_evidence a && not (policy_allows a.relation policy)
    then with_status "policy_changed" a
    else a

abbrev pub apply_current_policy : Policy → List Candidate → List Candidate
apply_current_policy policy [] = []
apply_current_policy policy (a ∷ rest) = marked policy a ∷ apply_current_policy policy rest

pub data Verdict : Type 0 where
  incomplete_candidate_validation verified ambiguous not_verified : Verdict

abbrev pub passes : Candidate → Bool
passes a = has_passed a && not (is_rejected_attempt a)

abbrev pub passed : List Candidate → List Candidate
passed [] = []
passed (a ∷ rest) = let others = passed rest in if passes a then a ∷ others else others

abbrev pub is_unfinished : Candidate → Bool
is_unfinished a = a.candidate_truncated || not (in_statuses completed a.status)

abbrev pub verdict_of : List Candidate → Verdict
verdict_of [] = not_verified
verdict_of (a ∷ []) = verified
verdict_of (a ∷ b ∷ rest) = ambiguous

unfoldable pub candidate_resolution : List Candidate → Verdict × List Candidate
candidate_resolution attempts =
    if any is_unfinished attempts
    then (incomplete_candidate_validation, passed attempts)
    else (verdict_of (passed attempts), passed attempts)
