-- ===== src/Handoff/Chosen.antt =====
-- What `normalize_targets` of mcp/gxp_core/handoff_store.py answers.
use Prim.Native.String.{count}
use look_lowcode.Prelude.{
  ℕ, ◌+◌, ◌≤◌, String, Bool, true, not, ◌&&◌, List, [], ◌∷◌, length, leb, all, ◌==◌, ◌≡◌, refl, sym,
  ◌∙◌, ap, arith,
}
use mathlib.Core.Path.{subst}
use look_lowcode.Json.{Value, null, bool, int, float, str, arr, obj, Items, nil, cons}
use look_lowcode.Condition.Build.{get}
use look_lowcode.Outcome.{done, require, bind-eq_done, then-eq_done, require-eq_done, done_inj}
use look_lowcode.Handoff.Host.{targets, size, exactly}
use look_lowcode.Handoff.Targets.{
  Target, same_target, seen_in, bounded_text, target_of, take_targets, normalize_targets,
}

-- A text of 1 to 200 characters.
abbrev is_sized : String → Bool
is_sized s = not (s == "") && leb (count s) 200

abbrev pub is_bounded : Target → Bool
is_bounded t = is_sized t.group_key && is_sized t.node_key

-- No target is named twice.
abbrev pub alone : List Target → Bool
alone [] = true
alone (t ∷ ts) = all (λ u. not (same_target u t)) ts && alone ts

bounded_text-eq_done : (v : Value) (s : String) → bounded_text v ≡ done s → is_sized s ≡ true
bounded_text-eq_done (str t) s h =
    let (fits, k) = then-eq_done (require (is_sized t) targets) (done t) h in
    ap is_sized (sym (done_inj t s k)) ∙ require-eq_done (is_sized t) targets fits
bounded_text-eq_done null s h = cc
bounded_text-eq_done (bool _) s h = cc
bounded_text-eq_done (int _) s h = cc
bounded_text-eq_done (float _) s h = cc
bounded_text-eq_done (arr _) s h = cc
bounded_text-eq_done (obj _) s h = cc

abbrev target : String → String → Target
target group node = record { group_key = group; node_key = node }

target_of-eq_done : (v : Value) (t : Target) → target_of v ≡ done t → is_bounded t ≡ true
unfolding target_of
target_of-eq_done (obj fs) t h =
    let (_, h1) = then-eq_done (require (exactly ("group_key" ∷ "node_key" ∷ []) fs) targets) _ h in
    let (group, g, h2) = bind-eq_done (bounded_text (get "group_key" null fs)) _ h1 in
    let (node, n, h3) =
      bind-eq_done (bounded_text (get "node_key" null fs)) (λ m. done (target group m)) h2 in
    ap is_bounded (sym (done_inj (target group node) t h3))
    ∙ rw
        (
          bounded_text-eq_done (get "group_key" null fs) group g,
          bounded_text-eq_done (get "node_key" null fs) node n,
        )
        refl
target_of-eq_done null t h = cc
target_of-eq_done (bool _) t h = cc
target_of-eq_done (int _) t h = cc
target_of-eq_done (float _) t h = cc
target_of-eq_done (str _) t h = cc
target_of-eq_done (arr _) t h = cc

-- Targets that are not among those seen, with one more, are not it and not among the others.
all_unseen :
    (t : Target) (seen ts : List Target)
    → all (λ u. not (seen_in u (t ∷ seen))) ts ≡ true
    → (all (λ u. not (same_target u t)) ts ≡ true) × (all (λ u. not (seen_in u seen)) ts ≡ true)
all_unseen t seen [] h = (refl, refl)
all_unseen t seen (u ∷ ts) h =
    let (a, b) = all_unseen t seen ts (ground arith) in (ground arith, ground arith)

-- What the loop takes, where it has seen some already.
pub record Taken (seen : List Target) (n : ℕ) (ts : List Target) : Type 0 where
  pub counted : length ts ≡ n
  pub unseen : all (λ u. not (seen_in u seen)) ts ≡ true
  pub apart : alone ts ≡ true
  pub bounded : all is_bounded ts ≡ true

take_targets-Taken :
    (seen : List Target) (xs : Items) (ts : List Target)
    → take_targets seen xs ≡ done ts
    → Taken seen (size xs) ts
unfolding take_targets
take_targets-Taken seen nil ts h =
    subst (Taken seen 0) (done_inj [] ts h)
      (record { counted = refl; unseen = refl; apart = refl; bounded = refl })
take_targets-Taken seen (cons v rest) ts h =
    let (t, of, h1) = bind-eq_done (target_of v) _ h in
    let (new, h2) = then-eq_done (require (not (seen_in t seen)) targets) _ h1 in
    let (us, taken, h3) = bind-eq_done (take_targets (t ∷ seen) rest) (λ ts'. done (t ∷ ts')) h2 in
    let later = take_targets-Taken (t ∷ seen) rest us taken in
    let (others, unseen) = all_unseen t seen us later.unseen in
    subst (Taken seen (size rest + 1)) (done_inj (t ∷ us) ts h3) (record {
      counted = grind (arith, later.counted);
      unseen = rw (require-eq_done _ targets new, unseen) refl;
      apart = rw (others, later.apart) refl;
      bounded = rw (target_of-eq_done v t of, later.bounded) refl;
    })

-- The chosen targets are 1 to 10, each named by texts of 1 to 200 characters, and none is named twice.
pub normalize_targets-Chosen :
    (v : Value) (ts : List Target)
    → normalize_targets v ≡ done ts
    → (1 ≤ length ts) × (length ts ≤ 10) × (all is_bounded ts ≡ true) × (alone ts ≡ true)
unfolding normalize_targets
normalize_targets-Chosen (arr xs) ts h =
    let (few, h1) =
      then-eq_done (require (leb 1 (size xs) && leb (size xs) 10) targets) (take_targets [] xs) h in
    let taken = take_targets-Taken [] xs ts h1 in
    let few' = require-eq_done (leb 1 (size xs) && leb (size xs) 10) targets few in
    (ground (arith, taken.counted), ground (arith, taken.counted), taken.bounded, taken.apart)
normalize_targets-Chosen null ts h = cc
normalize_targets-Chosen (bool _) ts h = cc
normalize_targets-Chosen (int _) ts h = cc
normalize_targets-Chosen (float _) ts h = cc
normalize_targets-Chosen (str _) ts h = cc
normalize_targets-Chosen (obj _) ts h = cc
