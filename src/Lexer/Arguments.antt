-- ===== src/Lexer/Arguments.antt =====
-- What `expression_end` and `split_arguments` answer, of mcp/gxp_core/source_lex.py on the tokens and brackets of a source.
use look_lowcode.Prelude.{
  ℕ, zero, suc, ◌-◌, ◌≤◌, Bool, true, false, ◌&&◌, Option, none, some, List, [], ◌∷◌, length, ltb,
  All, Bool-cases, inl, inr, ◌≡◌, refl, sym, ◌∙◌, ap, arith, if◌then◌else◌,
}
use mathlib.Core.Path.{subst}
use look_lowcode.Outcome.{Outcome, done}
use look_lowcode.Lexer.Source.{Token}
use look_lowcode.Lexer.Pairs.{
  is_opener, Pair, brackets, past_partner, over_partner, partner, token_at, stops, past, past_token,
  end_at, expression_end, over, angle, is_comma, last_range, range_if, split_at, split_while,
  split_from, split_arguments, Fault,
}
use look_lowcode.Lexer.Ahead.{brackets-Forward, partner_ahead, some_index}

token_at-length :
    (ts : List Token) (index : ℕ) (t : Token) → token_at ts index ≡ some t → suc index ≤ length ts
token_at-length [] index t h = cc
token_at-length (u ∷ ts) zero t h = omega arith
token_at-length (u ∷ ts) (suc index) t h = grind (arith, token_at-length ts index t h)

token_at-some :
    (ts : List Token) (index : ℕ)
    → suc index ≤ length ts
    → (t : Token) × (token_at ts index ≡ some t)
token_at-some [] index h = absurd (omega (arith, h))
token_at-some (t ∷ ts) zero h = (t, refl)
token_at-some (t ∷ ts) (suc index) h = token_at-some ts index (omega (arith, h))

module _ (ts : List Token) where
  abbrev pairs : List Pair
  pairs = (brackets ts).pairs

  past_partner-eq_some :
      (m : Option ℕ) (next : ℕ)
      → past_partner m ≡ some next
      → (other : ℕ) × (m ≡ some other) × (suc other ≡ next)
  past_partner-eq_some none next h = cc
  past_partner-eq_some (some other) next h = (other, refl, some_index ts (suc other) next h)

  past_goes_on :
      (cursor next : ℕ) (t : Token)
      → token_at ts cursor ≡ some t
      → past pairs cursor t ≡ some next
      → suc cursor ≤ next
  past_goes_on cursor next t here h = elim (Bool-cases (stops t)) [
    | inl ends ↦ absurd (cc (rw ends at h))
    | inr on ↦ elim (Bool-cases (t.is_code && is_opener t)) [
      | inr simple ↦ omega (arith, some_index ts (suc cursor) next (rw (on, simple) at h))
      | inl opens ↦
          let (other, e, same) =
            past_partner-eq_some (partner pairs cursor) next (rw (on, opens) at h) in
          let ahead =
            partner_ahead ts pairs cursor other t (brackets-Forward ts) here (ground arith) e in
          omega (arith, ahead, same)
    ]
  ]

  -- An expression that begins at any token of a source ends, with enough fuel for the tokens behind it, and
  -- not in front of its beginning.
  pub expression_end_ends :
      (fuel cursor : ℕ)
      → suc (length ts - cursor) ≤ fuel
      → (e : ℕ) × (expression_end fuel ts pairs cursor ≡ some e) × (cursor ≤ e)
  unfolding expression_end
  expression_end_ends zero cursor h = absurd (omega (arith, h))
  expression_end_ends (suc fuel) cursor h =
      go (token_at ts cursor) refl (past_token pairs cursor (token_at ts cursor)) refl
        (λ next fewer. expression_end_ends fuel next fewer)
    where
      go :
          (found : Option Token)
          → token_at ts cursor ≡ found
          → (on : Option ℕ) → past_token pairs cursor found ≡ on
          → ((next : ℕ)
              → suc (length ts - next) ≤ fuel
              → (e : ℕ) × (expression_end fuel ts pairs next ≡ some e) × (next ≤ e))
          → (e : ℕ) × (end_at cursor (expression_end fuel ts pairs) on ≡ some e) × (cursor ≤ e)
      go found here none k again = (cursor, refl, omega arith)
      go none here (some next) k again = cc
      go (some t) here (some next) k again =
          let further = past_goes_on cursor next t here k in
          let within = token_at-length ts cursor t here in
          let (e, ends, behind) = again next (omega (arith, h, further, within)) in
          (e, ends, omega (arith, behind, further))

  over_goes_on :
      (cursor : ℕ) (t : Token) → token_at ts cursor ≡ some t → suc cursor ≤ over pairs cursor t
  over_goes_on cursor t here = elim (Bool-cases (is_opener t)) [
    | inr simple ↦ rw simple (omega arith)
    | inl opens ↦ rw opens (go (partner pairs cursor) refl opens)
  ]
    where
      go :
          (m : Option ℕ)
          → partner pairs cursor ≡ m
          → is_opener t ≡ true
          → suc cursor ≤ over_partner cursor m
      go none e opens = omega arith
      go (some other) e opens =
          omega (arith, partner_ahead ts pairs cursor other t (brackets-Forward ts) here opens e)

  -- Ranges within two bounds.
  abbrev pub Ranges : ℕ → ℕ → List (ℕ × ℕ) → Type 0
  Ranges low high = All (λ r. (low ≤ r.0) × (r.0 ≤ r.1) × (r.1 ≤ high))

  Ranges-lower :
      (low next high : ℕ) (rs : List (ℕ × ℕ))
      → low ≤ next
      → Ranges next high rs
      → Ranges low high rs
  Ranges-lower low next high [] h rs = tt
  Ranges-lower low next high (r ∷ rs) h ((a, b, c), more) =
      ((omega (arith, h, a), b, c), Ranges-lower low next high rs h more)

  Ranges-last : (begin end : ℕ) → Ranges begin end (last_range begin end)
  Ranges-last begin end = elim (Bool-cases (ltb begin end)) [
    | inl some_left ↦ rw some_left ((omega arith, ground (arith, some_left), omega arith), tt)
    | inr none_left ↦ rw none_left tt
  ]

  abbrev Divides : ℕ → ℕ → Outcome Fault (List (ℕ × ℕ)) → Type 0
  Divides low high m = (rs : List (ℕ × ℕ)) × (m ≡ done rs) × Ranges low high rs

  range_if-Divides :
      (cut : Bool) (begin cursor high : ℕ) (m : Outcome Fault (List (ℕ × ℕ)))
      → begin ≤ cursor
      → cursor ≤ high
      → Divides (if cut then suc cursor else begin) high m
      → Divides begin high (range_if cut begin cursor m)
  range_if-Divides true begin cursor high m h k (rs, e, ranges) = (
    (begin, cursor) ∷ rs,
    rw e refl,
    ((omega arith, h, k), Ranges-lower begin (suc cursor) high rs (omega (arith, h)) ranges),
  )
  range_if-Divides false begin cursor high m h k found = found

  split_from-Divides :
      (fuel end begin depth cursor : ℕ)
      → end ≤ length ts
      → suc (end - cursor) ≤ fuel
      → begin ≤ cursor
      → Divides begin end (split_from fuel ts pairs end begin depth cursor)
  unfolding split_from
  split_from-Divides zero end begin depth cursor inside enough h = absurd (omega (arith, enough))
  split_from-Divides (suc fuel) end begin depth cursor inside enough h =
      elim (Bool-cases (ltb cursor end)) [
        | inr over_end ↦ (
          last_range begin end,
          ap
              (split_while (split_from fuel ts pairs end) pairs end begin depth cursor
                (token_at ts cursor))
              over_end,
          Ranges-last begin end,
        )
        | inl before_end ↦
            let less : suc cursor ≤ end = ground (arith, before_end) in
            let (t, here) = token_at-some ts cursor (omega (arith, less, inside)) in
            let further = over_goes_on cursor t here in
            let turn : split_from (suc fuel) ts pairs end begin depth cursor
                ≡ split_at (split_from fuel ts pairs end) pairs begin depth cursor (some t) =
              ap
                (split_while (split_from fuel ts pairs end) pairs end begin depth cursor
                  (token_at ts cursor))
                before_end
              ∙ ap (split_at (split_from fuel ts pairs end) pairs begin depth cursor) here in
            subst (Divides begin end) (sym turn) (
              range_if-Divides (is_comma depth t) begin cursor end _ h (omega (arith, less)) (
                split_from-Divides fuel end (if is_comma depth t then suc cursor else begin)
                  (angle depth t) (over pairs cursor t) inside
                  (omega (arith, enough, less, further)) (ground (arith, h, further))))
      ]

  -- Between two positions of a source's tokens, the second one not behind the last token, `split_arguments`
  -- answers, and each range lies between those positions and does not descend.
  pub split_arguments-Ranges :
      (start end : ℕ)
      → end ≤ length ts
      → (rs : List (ℕ × ℕ)) × (split_arguments ts pairs start end ≡ done rs) × Ranges start end rs
  unfolding split_arguments
  split_arguments-Ranges start end inside =
      split_from-Divides (suc (end - start)) end start 0 start inside (omega arith) (omega arith)
