-- ===== src/Texts/Order.antt =====
-- The order of texts, and sorting by it.
use Prim.Native.Nat.{compare as compare_ℕ}
use Prim.Native.Char.{Char, code}
use Prim.Native.String.{compare, then as first_of}
use Prim.Native.String.compare as compare_clauses
use text.Mathlib.Text.{is_lt}
use text.Mathlib.TextPositions.{compare_refl}
use look_lowcode.Texts.{precedes, insert_text, sort_texts}
use look_lowcode.Prelude.{
  String, Bool, true, false, not, ◌&&◌, ◌||◌, List, [], ◌∷◌, ◌++◌, ◌==◌, one_of, All, Bool-cases,
  inl, inr, ◌≡◌, refl, sym, ◌∙◌, ap, arith, if◌then◌else◌,
}

compare_cons :
    (c d : Char) (s t : String)
    → compare (String.◌∷◌ c s) (String.◌∷◌ d t)
      ≡ first_of (compare_ℕ (code c) (code d)) (compare s t)
compare_cons c d s t = compare_clauses.cons-cons c d s t

pub precedes_irrefl : (s : String) → precedes s s ≡ false
precedes_irrefl s = ap is_lt (compare_refl s)

pub precedes_trans :
    (a b c : String) → precedes a b ≡ true → precedes b c ≡ true → precedes a c ≡ true
precedes_trans String.[] String.[] c h k = k
precedes_trans String.[] (String.◌∷◌ d t) String.[] h k =
    absurd (cc (compare_clauses.cons-nil d t, k))
precedes_trans String.[] (String.◌∷◌ d t) (String.◌∷◌ e u) h k =
    ap is_lt (compare_clauses.nil-cons e u)
precedes_trans (String.◌∷◌ c s) String.[] z h k = absurd (cc (compare_clauses.cons-nil c s, h))
precedes_trans (String.◌∷◌ c s) (String.◌∷◌ d t) String.[] h k =
    absurd (cc (compare_clauses.cons-nil d t, k))
precedes_trans (String.◌∷◌ c s) (String.◌∷◌ d t) (String.◌∷◌ e u) h k =
    ground (
      arith,
      compare_cons c d s t,
      compare_cons d e t u,
      compare_cons c e s u,
      precedes_trans s t u,
    )

pub precedes_total : (a b : String) → (precedes a b || (a == b) || precedes b a) ≡ true
precedes_total String.[] String.[] = refl
precedes_total String.[] (String.◌∷◌ d t) = cc (compare_clauses.nil-cons d t)
precedes_total (String.◌∷◌ c s) String.[] = ground (arith, compare_clauses.nil-cons c s)
precedes_total (String.◌∷◌ c s) (String.◌∷◌ d t) =
    ground (arith, compare_cons c d s t, compare_cons d c t s, precedes_total s t)

-- The texts that are later than `a`.
abbrev pub later : String → List String → List String
later a [] = []
later a (x ∷ xs) = let rest = later a xs in if precedes a x then x ∷ rest else rest

insert_text-later :
    (a x : String) (ys : List String)
    → later a (insert_text x ys) ≡ (if precedes a x then insert_text x (later a ys) else later a ys)
unfolding insert_text
insert_text-later a x [] = refl
insert_text-later a x (y ∷ ys) = ground (arith, insert_text-later a x ys, precedes_trans a x y)

-- Sorting commutes with dropping what is not later than a text.
pub sort_texts-later :
    (a : String) (xs : List String) → sort_texts (later a xs) ≡ later a (sort_texts xs)
unfolding sort_texts
sort_texts-later a [] = refl
sort_texts-later a (x ∷ xs) = elim (Bool-cases (precedes a x)) [
  | inl kept ↦ rw kept (
      ap (insert_text x) (sort_texts-later a xs)
      ∙ sym (insert_text-later a x (sort_texts xs) ∙ rw kept refl))
  | inr dropped ↦
      rw dropped
        (sort_texts-later a xs ∙ sym (insert_text-later a x (sort_texts xs) ∙ rw dropped refl))
]

-- Each text precedes all that stand behind it.
abbrev pub Ascends : List String → Type 0
Ascends [] = Unit
Ascends (x ∷ xs) = All (λ y. precedes x y ≡ true) xs × Ascends xs

-- No text stands twice.
abbrev pub all_distinct : List String → Bool
all_distinct [] = true
all_distinct (x ∷ xs) = not (one_of x xs) && all_distinct xs

All-insert_text :
    (P : String → Type 0) (x : String) (ys : List String)
    → P x
    → All P ys
    → All P (insert_text x ys)
unfolding insert_text
All-insert_text P x [] p h = (p, tt)
All-insert_text P x (y ∷ ys) p (q, h) = elim (Bool-cases (precedes x y)) [
  | inl first ↦ rw first (p, (q, h))
  | inr behind ↦ rw behind (q, All-insert_text P x ys p h)
]

pub All-sort_texts : (P : String → Type 0) (xs : List String) → All P xs → All P (sort_texts xs)
unfolding sort_texts
All-sort_texts P [] h = tt
All-sort_texts P (x ∷ xs) (p, h) = All-insert_text P x (sort_texts xs) p (All-sort_texts P xs h)

pub All-imp :
    (P Q : String → Type 0) (xs : List String) → ((x : String) → P x → Q x) → All P xs → All Q xs
All-imp P Q [] f h = tt
All-imp P Q (x ∷ xs) f (p, h) = (f x p, All-imp P Q xs f h)

Ascends-insert_text :
    (x : String) (ys : List String)
    → All (λ y. (x == y) ≡ false) ys
    → Ascends ys
    → Ascends (insert_text x ys)
unfolding insert_text
Ascends-insert_text x [] ne h = (tt, tt)
Ascends-insert_text x (y ∷ ys) (ne, nes) (lt, h) = elim (Bool-cases (precedes x y)) [
  | inl first ↦ rw first (
    (
      first,
      All-imp (λ z. precedes y z ≡ true) (λ z. precedes x z ≡ true) ys
          (λ z k. precedes_trans x y z first k) lt,
    ),
    (lt, h),
  )
  | inr behind ↦ rw behind (
    All-insert_text (λ z. precedes y z ≡ true) x ys (ground (arith, precedes_total x y)) lt,
    Ascends-insert_text x ys nes h,
  )
]

All-ne : (x : String) (xs : List String) → one_of x xs ≡ false → All (λ y. (x == y) ≡ false) xs
All-ne x [] h = tt
All-ne x (y ∷ ys) h = (ground arith, All-ne x ys (ground arith))

-- Distinct texts are sorted into ascending ones.
pub sort_texts-Ascends : (xs : List String) → all_distinct xs ≡ true → Ascends (sort_texts xs)
unfolding sort_texts
sort_texts-Ascends [] h = tt
sort_texts-Ascends (x ∷ xs) h =
    Ascends-insert_text x (sort_texts xs)
      (All-sort_texts (λ y. (x == y) ≡ false) xs (All-ne x xs (ground arith)))
      (sort_texts-Ascends xs (ground arith))

-- In ascending texts, what is later than one of them is what stands behind it.
pub later-All :
    (a : String) (xs : List String) → All (λ y. precedes a y ≡ true) xs → later a xs ≡ xs
later-All a [] h = refl
later-All a (x ∷ xs) (p, h) = rw p (ap (λ ys. x ∷ ys) (later-All a xs h))

pub All-right : (P : String → Type 0) (xs ys : List String) → All P (xs ++ ys) → All P ys
All-right P [] ys h = h
All-right P (x ∷ xs) ys (p, h) = All-right P xs ys h

pub later_split :
    (xs : List String) (a : String) (ys : List String)
    → Ascends (xs ++ a ∷ ys)
    → later a (xs ++ a ∷ ys) ≡ ys
later_split [] a ys (p, h) = rw (precedes_irrefl a) (later-All a ys p)
later_split (x ∷ xs) a ys (p, h) =
    let before = (All-right (λ z. precedes x z ≡ true) xs (a ∷ ys) p).0 in
    let not_after : precedes a x ≡ false = elim (Bool-cases (precedes a x)) [
      | inl after ↦ cc (precedes_trans x a x before after, precedes_irrefl x)
      | inr fine ↦ fine
    ] in
    rw not_after (later_split xs a ys h)
