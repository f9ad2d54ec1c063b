-- ===== src/Handoff/Cursor.antt =====
-- The cursor of mcp/gxp_core/handoff_store.py's `list_page`, made and read.
use Prim.Native.String.{count, ◌++◌ as append}
use Prim.Native.String.append as append_clauses
use Prim.Native.String.compare as compare_clauses
use Prim.Native.String.count as count_clauses
use text.Mathlib.Text.{is_eq as codes_equal}
use look_lowcode.Prelude.{
  ℕ, zero, suc, ◌+◌, String, true, false, ◌==◌, eq_refl, ◌≡◌, refl, sym, ◌∙◌, ap, arith,
}
use look_lowcode.Json.{str}
use look_lowcode.Outcome.{done}
use look_lowcode.Handoff.Host.{is_id}
use look_lowcode.Handoff.Summary.{take_chars}
use look_lowcode.Handoff.Page.{drop_chars, joined, cursor_id}

count-append : (s t : String) → count (append s t) ≡ count s + count t
count-append String.[] t = ap count (append_clauses.nil t) ∙ (omega arith)
count-append (String.◌∷◌ c s) t = grind (
  arith,
  append_clauses.cons c s t,
  count_clauses.cons c (append s t),
  count_clauses.cons c s,
  count-append s t,
)

take_chars-append : (s t : String) → take_chars (count s) (append s t) ≡ s
unfolding take_chars
take_chars-append String.[] t = refl
take_chars-append (String.◌∷◌ c s) t =
    rw (count_clauses.cons c s, append_clauses.cons c s t)
      (ap (λ r. String.◌∷◌ c r) (take_chars-append s t))

drop_chars-append : (s t : String) → drop_chars (count s) (append s t) ≡ t
unfolding drop_chars
drop_chars-append String.[] t = append_clauses.nil t
drop_chars-append (String.◌∷◌ c s) t =
    rw (count_clauses.cons c s, append_clauses.cons c s t) (drop_chars-append s t)

count-is_id : (s : String) → is_id s ≡ true → count s ≡ 32
unfolding is_id
count-is_id s h = ground arith

id_is_text : (s t : String) → count s ≡ 32 → (append s t == "") ≡ false
id_is_text String.[] t h = cc (h, count_clauses.nil)
id_is_text (String.◌∷◌ c s) t h =
    rw (append_clauses.cons c s t) (ap codes_equal (compare_clauses.cons-nil c (append s t)))

drop_chars-suc : (n : ℕ) (s : String) → drop_chars (suc n) s ≡ drop_chars 1 (drop_chars n s)
unfolding drop_chars
drop_chars-suc zero s = refl
drop_chars-suc (suc n) String.[] = refl
drop_chars-suc (suc n) (String.◌∷◌ c s) = drop_chars-suc n s

-- A cursor that a page makes at a path gives back that path.
pub cursor_id-joined :
    (last digest : String)
    → is_id last ≡ true
    → count digest ≡ 64
    → cursor_id digest (str (joined last digest)) ≡ done last
unfolding cursor_id
cursor_id-joined last digest h k =
    let size = count-is_id last h in
    let rest = append "." digest in
    let longer : count (joined last digest) ≡ 97 =
      grind (arith, count-append last rest, count-append "." digest) in
    let first : take_chars 32 (joined last digest) ≡ last =
      ap (λ n. take_chars n (joined last digest)) (sym size) ∙ take_chars-append last rest in
    let second : drop_chars 32 (joined last digest) ≡ rest =
      ap (λ n. drop_chars n (joined last digest)) (sym size) ∙ drop_chars-append last rest in
    let third : drop_chars 33 (joined last digest) ≡ digest =
      drop_chars-suc 32 (joined last digest)
      ∙ ap (drop_chars 1) second
      ∙ drop_chars-append "." digest in
    let dot : take_chars 1 (drop_chars 32 (joined last digest)) ≡ "." =
      ap (take_chars 1) second ∙ take_chars-append "." digest in
    rw (id_is_text last rest size, longer, dot, first, third, h, eq_refl digest) refl
