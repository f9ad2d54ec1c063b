-- ===== src/Policy/Verdict.antt =====
-- What a verdict on candidate relations rests on (mcp/gxp_core/schema_snapshot.py), and that a rejection
-- (mcp/gxp_core/relation_policy.py) reaches it.
use look_lowcode.Prelude.{
  String, true, false, not, ◌&&◌, List, [], ◌∷◌, any, one_of, All, Bool-cases, inl, inr, ◌≡◌, ◌≢◌,
  refl, sym, ◌∙◌, ap, arith,
}
use mathlib.Core.Path.{subst}
use look_lowcode.Policy.Snapshot.{Policy, Snapshot, policy_allows, snapshot, synced}
use look_lowcode.Policy.Document.{ok, File}
use look_lowcode.Policy.Store.{Reply, reject}
use look_lowcode.Policy.Stale.{reject_blocks}
use look_lowcode.Policy.Attempts.{
  Evidence, lacking, present, Candidate, has_evidence, has_passed, is_rejected_attempt, with_status,
  marked, apply_current_policy, verified, passes, passed, is_unfinished, verdict_of,
  candidate_resolution,
}

-- An attempt whose evidence has passed and whose relation the policy allows.
abbrev pub IsBacked : Policy → Candidate → Type 0
IsBacked policy a = (has_passed a ≡ true) × (policy_allows a.relation policy ≡ true)

passed_has_evidence : (a : Candidate) → has_passed a ≡ true → has_evidence a ≡ true
passed_has_evidence a h = go a.evidence refl h
  where
    go :
        (e : Evidence)
        → a.evidence ≡ e
        → (elim e [ lacking ↦ false | present well ↦ well ]) ≡ true
        → has_evidence a ≡ true
    go lacking same k = cc
    go (present well) same k = ap (λ e. elim e [ lacking ↦ false | present _ ↦ true ]) same

changed_is_unfinished : (a : Candidate) → is_unfinished (with_status "policy_changed" a) ≡ true
changed_is_unfinished a = ground arith

not_changed : (a : Candidate) → is_unfinished (with_status "policy_changed" a) ≢ false
not_changed a h = cc (changed_is_unfinished a, h)

rejected_fails : (a : Candidate) → passes (with_status "rejected_by_policy" a) ≡ false
rejected_fails a = ground arith

marked-IsBacked :
    (policy : Policy) (a : Candidate)
    → is_unfinished (marked policy a) ≡ false
    → passes (marked policy a) ≡ true
    → IsBacked policy (marked policy a)
unfolding marked
marked-IsBacked policy a finished passing =
    elim (Bool-cases (one_of a.relation.relation_id policy.rejections)) [
      | inl rejected ↦ absurd (cc (rejected_fails a))
      | inr fine ↦ elim (Bool-cases (is_rejected_attempt a)) [
        | inl before ↦ absurd (not_changed a (rw (fine, before) at finished))
        | inr other ↦ elim (Bool-cases (has_evidence a && not (policy_allows a.relation policy))) [
          | inl barred ↦ absurd (not_changed a (rw (fine, other, barred) at finished))
          | inr backed ↦
              let well : passes a ≡ true = rw (fine, other, backed) at passing in
              let seen = passed_has_evidence a (ground arith) in
              rw (fine, other, backed) (ground arith, ground arith)
        ]
      ]
    ]

passed-IsBacked :
    (policy : Policy) (attempts : List Candidate)
    → any is_unfinished (apply_current_policy policy attempts) ≡ false
    → All (IsBacked policy) (passed (apply_current_policy policy attempts))
passed-IsBacked policy [] h = tt
passed-IsBacked policy (a ∷ rest) h =
    let others = passed-IsBacked policy rest (ground arith) in
    elim (Bool-cases (passes (marked policy a))) [
      | inl passing ↦ rw passing (marked-IsBacked policy a (ground arith) passing, others)
      | inr failing ↦ rw failing others
    ]

verdict_one :
    (attempts : List Candidate)
    → verdict_of attempts ≡ verified
    → (a : Candidate) × (attempts ≡ a ∷ [])
verdict_one [] h = cc
verdict_one (a ∷ []) h = (a, refl)
verdict_one (a ∷ b ∷ rest) h = cc

-- A verdict that the current policy leaves verified rests on exactly one candidate: its evidence has passed
-- and the policy allows its relation.
pub candidate_resolution-IsBacked :
    (policy : Policy) (attempts backed : List Candidate)
    → candidate_resolution (apply_current_policy policy attempts) ≡ (verified, backed)
    → (a : Candidate) × (backed ≡ a ∷ []) × IsBacked policy a
unfolding candidate_resolution
candidate_resolution-IsBacked policy attempts backed h =
    elim (Bool-cases (any is_unfinished (apply_current_policy policy attempts))) [
      | inl unfinished ↦ let h' = rw unfinished at h in absurd (cc (ap (λ p. p.0) h'))
      | inr finished ↦
          let h' = rw finished at h in
          let same : passed (apply_current_policy policy attempts) ≡ backed = ap (λ p. p.1) h' in
          let (a, e) =
            verdict_one (passed (apply_current_policy policy attempts)) (ap (λ p. p.0) h') in
          (
            a,
            sym same ∙ e,
            (subst (All (IsBacked policy)) e (passed-IsBacked policy attempts finished)).0,
          )
    ]

-- After a successful rejection of a relation, no verdict under a later successful snapshot of the file rests on
-- that relation.
pub reject_reaches_verdict :
    (s r code now : String) (file file' after : File) (reply : Reply) (snap : Snapshot)
    (attempts backed : List Candidate) (a : Candidate)
    → reject s r code now file ≡ (ok reply, file')
    → snapshot s file' ≡ (ok snap, after)
    → candidate_resolution (apply_current_policy (synced snap) attempts) ≡ (verified, a ∷ backed)
    → a.relation.relation_id ≢ r
reject_reaches_verdict s r code now file file' after reply snap attempts backed a h k v same =
    let (b, e, (_, allowed)) =
      candidate_resolution-IsBacked (synced snap) attempts (a ∷ backed) v in
    let (_, barred) = reject_blocks s r code now file file' after reply snap a.relation h k same in
    let it : a ≡ b = cc in cc (barred, ap (λ c. policy_allows c.relation (synced snap)) it, allowed)
