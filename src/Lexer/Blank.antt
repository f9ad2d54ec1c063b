-- ===== src/Lexer/Blank.antt =====
-- The texts that the lexer makes of a source, `clean` and `code`, against the source
-- (mcp/gxp_core/source_lex.py).
use look_lowcode.Prelude.{
  ℕ, zero, suc, ◌≤◌, Bool, true, false, not, ◌&&◌, ◌||◌, Option, none, some, [], ◌∷◌, ◌++◌, length,
  length-append, nat_beq, Bool-cases, inl, inr, ◌≡◌, refl, sym, ◌∙◌, ap, arith,
}
use mathlib.Core.Path.{subst}
use mathlib.Core.List.{append_assoc}
use look_lowcode.Lexer.Chars.{Chars, Alphabet, is_line_end, first_chars, skip_chars, plus, blank}
use look_lowcode.Lexer.Source.{
  text, Special, Split, Piece, copied, token, marker_at, search_special, piece, width, read_on,
  Lexed, clean_part, code_part, or_length, split_or, regex_piece, is_interpolated, regex_may_begin,
  after_search, lex_from, lexed, slash, two_quotes, line_comment, block_comment, at_quote, triple,
  one_quote, tick,
}

-- The second text has the length of the first, the same line ends at the same places, and each of its other
-- characters is that of the first or a blank.
abbrev pub is_blanked : Chars → Chars → Bool
is_blanked [] [] = true
is_blanked (c ∷ s) (d ∷ t) = (nat_beq d c || nat_beq d 32 && not (is_line_end c)) && is_blanked s t
is_blanked _ _ = false

is_blanked_refl : (s : Chars) → is_blanked s s ≡ true
is_blanked_refl [] = refl
is_blanked_refl (c ∷ s) = ground (arith, is_blanked_refl s)

is_blanked-blank : (s : Chars) → is_blanked s (blank s) ≡ true
is_blanked-blank [] = refl
is_blanked-blank (c ∷ s) = ground (arith, is_blanked-blank s)

is_blanked-append :
    (s t u v : Chars)
    → is_blanked s t ≡ true
    → is_blanked u v ≡ true
    → is_blanked (s ++ u) (t ++ v) ≡ true
is_blanked-append [] [] u v h k = k
is_blanked-append [] (d ∷ t) u v h k = cc
is_blanked-append (c ∷ s) [] u v h k = cc
is_blanked-append (c ∷ s) (d ∷ t) u v h k = ground (arith, is_blanked-append s t u v)

first_skip : (n : ℕ) (s : Chars) → first_chars n s ++ skip_chars n s ≡ s
first_skip zero s = refl
first_skip (suc n) [] = refl
first_skip (suc n) (c ∷ s) = ap (λ t. c ∷ t) (first_skip n s)

length-skip_chars : (n : ℕ) (s : Chars) → length (skip_chars n s) ≤ length s
length-skip_chars zero s = omega arith
length-skip_chars (suc n) [] = omega arith
length-skip_chars (suc n) (c ∷ s) = grind (arith, length-skip_chars n s)

skip_less : (n c : ℕ) (s : Chars) → 1 ≤ n → suc (length (skip_chars n (c ∷ s))) ≤ length (c ∷ s)
skip_less zero c s h = absurd (omega (arith, h))
skip_less (suc n) c s h = grind (arith, length-skip_chars n s)

-- A marker that the search finds stands behind the text in front of it.
abbrev Splits : Chars → Option Split → Type 0
Splits s none = Unit
Splits s (some found) = (s ≡ found.gap ++ found.tail) × (1 ≤ length found.tail)

split_or-Splits :
    (c : ℕ) (s : Chars) (later : Option Split) (m : Option Special)
    → Splits s later
    → Splits (c ∷ s) (split_or c s later m)
split_or-Splits c s later (some m) h = (refl, omega arith)
split_or-Splits c s none none h = tt
split_or-Splits c s (some found) none (e, some_left) = (ap (λ t. c ∷ t) e, some_left)

search_special-Splits : (s : Chars) → Splits s (search_special s)
unfolding search_special
search_special-Splits [] = tt
search_special-Splits (c ∷ s) =
    split_or-Splits c s (search_special s) (marker_at (c ∷ s)) (search_special-Splits s)

plus_counts : (k : ℕ) (m : Option ℕ) (c : ℕ) (s : Chars) → 1 ≤ or_length (c ∷ s) (plus (suc k) m)
plus_counts k none c s = omega arith
plus_counts k (some n) c s = omega arith

regex_counts : (m : Option ℕ) (c : ℕ) (s : Chars) → 1 ≤ width (c ∷ s) (regex_piece m)
regex_counts none c s = omega arith
regex_counts (some n) c s = omega arith

-- Each piece takes a character at least.
width_counts :
    (al : Alphabet) (csharp : Bool) (before : Chars) (m : Special) (c : ℕ) (s : Chars)
    → 1 ≤ width (c ∷ s) (piece al csharp before m s)
unfolding piece
width_counts al csharp before line_comment c s = omega arith
width_counts al csharp before block_comment c s = plus_counts 3 _ c s
width_counts al csharp before at_quote c s = plus_counts 1 _ c s
width_counts al csharp before triple c s = plus_counts 5 _ c s
width_counts al csharp before one_quote c s = plus_counts 0 _ c s
width_counts al csharp before tick c s = plus_counts 0 _ c s
width_counts al csharp before two_quotes c s =
    elim (Bool-cases (csharp && is_interpolated before)) [
      | inl template ↦ rw template (plus_counts 0 _ c s)
      | inr simple ↦ rw simple (plus_counts 0 _ c s)
    ]
width_counts al csharp before slash c s =
    elim (Bool-cases (not csharp && regex_may_begin al before)) [
      | inl begins ↦ rw begins (regex_counts _ c s)
      | inr divides ↦ rw divides (omega arith)
    ]

is_blanked-clean_part : (p : Piece) (s : Chars) → is_blanked s (clean_part p s) ≡ true
is_blanked-clean_part copied s = is_blanked_refl s
is_blanked-clean_part (token text _) s = is_blanked_refl s
is_blanked-clean_part (token _ _) s = is_blanked-blank s

is_blanked-code_part : (p : Piece) (s : Chars) → is_blanked s (code_part p s) ≡ true
is_blanked-code_part copied s = is_blanked_refl s
is_blanked-code_part (token _ _) s = is_blanked-blank s

abbrev Both : Chars → Lexed → Type 0
Both s l = (is_blanked s l.clean ≡ true) × (is_blanked s l.code ≡ true)

-- A text of three parts, the last one longer than its own rest.
three_parts :
    (s gap tail : Chars) (n : ℕ) (part rest : Chars)
    → s ≡ gap ++ tail
    → is_blanked (first_chars n tail) part ≡ true
    → is_blanked (skip_chars n tail) rest ≡ true
    → is_blanked s (gap ++ part ++ rest) ≡ true
three_parts s gap tail n part rest e h k =
    subst (λ t. is_blanked t (gap ++ part ++ rest) ≡ true)
      (append_assoc gap (first_chars n tail) (skip_chars n tail)
        ∙ ap (λ t. gap ++ t) (first_skip n tail)
        ∙ sym e)
      (is_blanked-append (gap ++ first_chars n tail) (gap ++ part) (skip_chars n tail) rest
        (is_blanked-append gap gap (first_chars n tail) part (is_blanked_refl gap) h) k)

shorter :
    (al : Alphabet) (csharp : Bool) (before : Chars) (m : Special) (gap tail s : Chars)
    → s ≡ gap ++ tail
    → 1 ≤ length tail
    → suc (length (skip_chars (width tail (piece al csharp before m (skip_chars 1 tail))) tail))
      ≤ length s
shorter al csharp before m gap [] s e h = absurd (omega (arith, h))
shorter al csharp before m gap (c ∷ tail) s e h = grind (
  arith,
  skip_less (width (c ∷ tail) (piece al csharp before m tail)) c tail
      (width_counts al csharp before m c tail),
  length-append gap (c ∷ tail),
  ap length e,
)

after_search-Both :
    (al : Alphabet) (csharp : Bool) (before s : Chars) (again : Chars → Chars → Lexed)
    (found : Option Split)
    → Splits s found
    → ((b r : Chars) → suc (length r) ≤ length s → Both r (again b r))
    → Both s (after_search al csharp before s again found)
after_search-Both al csharp before s again none h k = (is_blanked_refl s, is_blanked_refl s)
after_search-Both al csharp before s again (some found) (e, some_left) k =
    let here = read_on found.gap before in
    let p = piece al csharp here found.marker (skip_chars 1 found.tail) in
    let n = width found.tail p in
    let (cleans, codes) =
      k (read_on (first_chars n found.tail) here) (skip_chars n found.tail)
        (shorter al csharp here found.marker found.gap found.tail s e some_left) in
    (
      three_parts s found.gap found.tail n (clean_part p (first_chars n found.tail)) _ e
          (is_blanked-clean_part p (first_chars n found.tail)) cleans,
      three_parts s found.gap found.tail n (code_part p (first_chars n found.tail)) _ e
          (is_blanked-code_part p (first_chars n found.tail)) codes,
    )

lex_from-Both :
    (fuel : ℕ) (al : Alphabet) (csharp : Bool) (before s : Chars)
    → suc (length s) ≤ fuel
    → Both s (lex_from fuel al csharp before s)
unfolding lex_from
lex_from-Both zero al csharp before s h = absurd (omega (arith, h))
lex_from-Both (suc fuel) al csharp before s h =
    after_search-Both al csharp before s (lex_from fuel al csharp) (search_special s)
      (search_special-Splits s)
      (λ b r fewer. lex_from-Both fuel al csharp b r (omega (arith, fewer, h)))

-- The source without its comments, and without its strings too, has the positions of the source: it is as
-- long, its line ends stand where they stood, and each other character is there or blank.
pub lexed-Both :
    (al : Alphabet) (csharp : Bool) (s : Chars)
    → (is_blanked s (lexed al csharp s).clean ≡ true)
      × (is_blanked s (lexed al csharp s).code ≡ true)
unfolding lexed
lexed-Both al csharp s = lex_from-Both (suc (length s)) al csharp [] s (omega arith)
