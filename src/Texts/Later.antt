-- ===== src/Texts/Later.antt =====
-- What of a list of texts is later than one of them, where the texts ascend.
use look_lowcode.Texts.{precedes, insert_text, sort_texts}
use look_lowcode.Texts.Order.{later, precedes_trans, Ascends}
use look_lowcode.Prelude.{
  suc, ◌≤◌, String, true, List, [], ◌∷◌, ◌++◌, length, All, Bool-cases, inl, inr, ◌⊎◌, ◌≡◌, refl,
  ◌∙◌, ap, arith,
}

pub later-All : (a : String) (xs : List String) → All (λ x. precedes a x ≡ true) (later a xs)
later-All a [] = tt
later-All a (x ∷ xs) = elim (Bool-cases (precedes a x)) [
  | inl kept ↦ rw kept (kept, later-All a xs)
  | inr dropped ↦ rw dropped (later-All a xs)
]

-- What is later than the later of two texts is among what is later than the earlier one.
pub later-later :
    (a b : String) (xs : List String) → precedes a b ≡ true → later b (later a xs) ≡ later b xs
later-later a b [] h = refl
later-later a b (x ∷ xs) h = ground (arith, later-later a b xs h, precedes_trans a b x h)

pub later-imp :
    (P : String → Type 0) (a : String) (xs : List String) → All P xs → All P (later a xs)
later-imp P a [] h = tt
later-imp P a (x ∷ xs) (p, h) = elim (Bool-cases (precedes a x)) [
  | inl kept ↦ rw kept (p, later-imp P a xs h)
  | inr dropped ↦ rw dropped (later-imp P a xs h)
]

pub later-Ascends : (a : String) (xs : List String) → Ascends xs → Ascends (later a xs)
later-Ascends a [] h = tt
later-Ascends a (x ∷ xs) (p, h) = elim (Bool-cases (precedes a x)) [
  | inl kept ↦ rw kept (later-imp (λ y. precedes x y ≡ true) a xs p, later-Ascends a xs h)
  | inr dropped ↦ rw dropped (later-Ascends a xs h)
]

pub length-later : (a : String) (xs : List String) → length (later a xs) ≤ length xs
length-later a [] = omega arith
length-later a (x ∷ xs) = elim (Bool-cases (precedes a x)) [
  | inl kept ↦ rw kept (grind (arith, length-later a xs))
  | inr dropped ↦ rw dropped (grind (arith, length-later a xs))
]

length-insert_text : (x : String) (ys : List String) → length (insert_text x ys) ≡ suc (length ys)
unfolding insert_text
length-insert_text x [] = refl
length-insert_text x (y ∷ ys) = elim (Bool-cases (precedes x y)) [
  | inl first ↦ rw first refl
  | inr behind ↦ rw behind (ap suc (length-insert_text x ys))
]

pub length-sort_texts : (xs : List String) → length (sort_texts xs) ≡ length xs
unfolding sort_texts
length-sort_texts [] = refl
length-sort_texts (x ∷ xs) = length-insert_text x (sort_texts xs) ∙ ap suc (length-sort_texts xs)

-- The last of the texts, or `last` where there is none.
abbrev pub last_of : String → List String → String
last_of last [] = last
last_of last (name ∷ names) = last_of name names

-- A list is empty or ends in a text.
pub ends_in :
    (last : String) (xs : List String)
    → (xs ≡ [])
      ⊎ ((before : List String) × (a : String) × (xs ≡ before ++ a ∷ []) × (last_of last xs ≡ a))
ends_in last [] = inl refl
ends_in last (x ∷ xs) = elim (ends_in x xs) [
  | inl e ↦ inr ([], x, ap (λ ys. x ∷ ys) e, ap (last_of x) e)
  | inr (before, a, e, l) ↦ inr (x ∷ before, a, ap (λ ys. x ∷ ys) e, l)
]
