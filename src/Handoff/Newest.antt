-- ===== src/Handoff/Newest.antt =====
-- The order in which `HandoffStore.list` of mcp/gxp_core/handoff_store.py answers.
use Prim.Native.Nat.{compare as compare_ℕ}
use Prim.Native.Char.{Char, code}
use Prim.Native.String.{compare, then as first_of}
use Prim.Native.String.compare as compare_clauses
use text.Mathlib.Text.{is_le}
use mathlib.Core.List.{Perm, Permᴰ}
use mathlib.Core.List.Permᴰ
use look_lowcode.Prelude.{
  String, Bool, true, false, not, List, [], ◌∷◌, ◌==◌, eq_iff, All, Bool-cases, inl, inr, ◌≡◌, refl,
  sym, ◌∙◌, ap, arith,
}
use look_lowcode.Json.{Value}
use look_lowcode.Texts.{precedes}
use look_lowcode.Texts.Order.{precedes_trans, precedes_total, precedes_irrefl}
use look_lowcode.Handoff.Page.{created_text, insert_summary, newest_first}

compare_cons :
    (c d : Char) (s t : String)
    → compare (String.◌∷◌ c s) (String.◌∷◌ d t)
      ≡ first_of (compare_ℕ (code c) (code d)) (compare s t)
compare_cons c d s t = compare_clauses.cons-cons c d s t

-- a <= b
abbrev pub at_most : String → String → Bool
at_most a b = is_le (compare a b)

at_most-precedes : (a b : String) → at_most a b ≡ not (precedes b a)
at_most-precedes String.[] String.[] = refl
at_most-precedes String.[] (String.◌∷◌ d t) =
    ground (arith, compare_clauses.nil-cons d t, compare_clauses.cons-nil d t)
at_most-precedes (String.◌∷◌ c s) String.[] =
    ground (arith, compare_clauses.nil-cons c s, compare_clauses.cons-nil c s)
at_most-precedes (String.◌∷◌ c s) (String.◌∷◌ d t) =
    ground (arith, compare_cons c d s t, compare_cons d c t s, at_most-precedes s t)

at_most_total : (a b : String) → at_most a b ≡ false → at_most b a ≡ true
at_most_total a b h =
    ground
      (arith, at_most-precedes a b, at_most-precedes b a, precedes_trans a b a, precedes_irrefl a)

at_most_trans : (a b c : String) → at_most a b ≡ true → at_most b c ≡ true → at_most a c ≡ true
at_most_trans a b c h k = elim (Bool-cases (at_most a c)) [
  | inl fine ↦ fine
  | inr bad ↦
      let later : precedes c a ≡ true = ground (arith, at_most-precedes a c) in
      let second : precedes c b ≡ true = elim (Bool-cases (a == b)) [
        | inl same ↦ ap (precedes c) (sym ((eq_iff a b).0 same)) ∙ later
        | inr apart ↦
            precedes_trans c a b later (ground (arith, precedes_total a b, at_most-precedes a b, h))
      ] in
      ground (arith, at_most-precedes b c, second, k)
]

-- Each summary was created no later than those in front of it.
abbrev pub Descends : List Value → Type 0
Descends [] = Unit
Descends (v ∷ vs) = All (λ w. at_most (created_text w) (created_text v) ≡ true) vs × Descends vs

insert_summary-All :
    (P : Value → Type 0) (v : Value) (ws : List Value)
    → P v
    → All P ws
    → All P (insert_summary v ws)
unfolding insert_summary
insert_summary-All P v [] p h = (p, tt)
insert_summary-All P v (w ∷ ws) p (q, h) =
    elim (Bool-cases (at_most (created_text w) (created_text v))) [
      | inl first ↦ rw first (p, (q, h))
      | inr behind ↦ rw behind (q, insert_summary-All P v ws p h)
    ]

All-older :
    (a b : String) (ws : List Value)
    → at_most a b ≡ true
    → All (λ w. at_most (created_text w) a ≡ true) ws
    → All (λ w. at_most (created_text w) b ≡ true) ws
All-older a b [] h older = tt
All-older a b (w ∷ ws) h (o, older) =
    (at_most_trans (created_text w) a b o h, All-older a b ws h older)

insert_summary-Descends :
    (v : Value) (ws : List Value) → Descends ws → Descends (insert_summary v ws)
unfolding insert_summary
insert_summary-Descends v [] h = (tt, tt)
insert_summary-Descends v (w ∷ ws) (older, h) =
    elim (Bool-cases (at_most (created_text w) (created_text v))) [
      | inl first ↦
          rw first ((first, All-older (created_text w) (created_text v) ws first older), (older, h))
      | inr behind ↦ rw behind (
        insert_summary-All (λ u. at_most (created_text u) (created_text w) ≡ true) v ws
            (at_most_total (created_text w) (created_text v) behind) older,
        insert_summary-Descends v ws h,
      )
    ]

insert_summary-Perm : (v : Value) (ws : List Value) → Permᴰ (v ∷ ws) (insert_summary v ws)
unfolding insert_summary
insert_summary-Perm v [] = Permᴰ.refl (v ∷ [])
insert_summary-Perm v (w ∷ ws) = elim (Bool-cases (at_most (created_text w) (created_text v))) [
  | inl first ↦ rw first (Permᴰ.refl (v ∷ w ∷ ws))
  | inr behind ↦
      rw behind (Permᴰ.trans (Permᴰ.swap refl refl) (Permᴰ.cons refl (insert_summary-Perm v ws)))
]

newest_first-Perm : (vs : List Value) → Permᴰ vs (newest_first vs)
unfolding newest_first
newest_first-Perm [] = Permᴰ.refl []
newest_first-Perm (v ∷ vs) =
    Permᴰ.trans (Permᴰ.cons refl (newest_first-Perm vs)) (insert_summary-Perm v (newest_first vs))

newest_first-Descends : (vs : List Value) → Descends (newest_first vs)
unfolding newest_first
newest_first-Descends [] = tt
newest_first-Descends (v ∷ vs) =
    insert_summary-Descends v (newest_first vs) (newest_first-Descends vs)

-- The order of an answer of `list` is a rearrangement of its summaries in which none was created later than
-- one in front of it.
pub newest_first_sorts : (vs : List Value) → Descends (newest_first vs) × Perm vs (newest_first vs)
newest_first_sorts vs = (newest_first-Descends vs, ∣ newest_first-Perm vs ∣₁)
