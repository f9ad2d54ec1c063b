-- ===== src/Lexer/Ahead.antt =====
-- The bracket pairs of a source's tokens, by their positions (mcp/gxp_core/source_lex.py).
use look_lowcode.Prelude.{
  ℕ, suc, ◌+◌, ◌≤◌, true, false, some, List, [], ◌∷◌, nat_beq, All, Bool-cases, inl, inr, ◌≡◌, sym,
  ◌∙◌, ap, arith,
}
use mathlib.Core.Path.{subst}
use look_lowcode.Lexer.Source.{Token}
use look_lowcode.Lexer.Pairs.{
  is_opener, is_closer, closes, Pair, Brackets, close_bracket, on_token, brackets_from, brackets,
  partner, token_at,
}

module _ (ts : List Token) where
  -- A pair ascends, and its last bracket does not open one.
  abbrev Forward : Pair → Type 0
  Forward (first, last) =
      (suc first ≤ last) × ((t : Token) → token_at ts last ≡ some t → is_opener t ≡ false)

  pub record Ordered (index : ℕ) (b : Brackets) : Type 0 where
    pub forward : All Forward b.pairs
    pub behind : All (λ o. suc (o.0) ≤ index) b.stack

  some_inj : (s t : Token) → some s ≡ some t → s ≡ t
  some_inj s t h = cc

  pub some_index : (m n : ℕ) → some m ≡ some n → m ≡ n
  some_index m n h = cc

  close_bracket-Ordered :
      (index : ℕ) (t : Token) (pairs : List Pair) (stack : List (ℕ × Token)) (errors : List ℕ)
      → token_at ts index ≡ some t
      → is_opener t ≡ false
      → All Forward pairs
      → All (λ o. suc (o.0) ≤ index) stack
      → Ordered index
          (close_bracket index t (record { pairs = pairs; stack = stack; unbalanced = errors }))
  close_bracket-Ordered index t pairs [] errors here shut f s = record { forward = f; behind = s }
  close_bracket-Ordered index t pairs ((first, opener) ∷ rest) errors here shut f (s, ss) =
      elim (Bool-cases (closes opener t)) [
        | inl pair ↦ rw pair (record {
          forward =
              ((s, λ u e. subst (λ v. is_opener v ≡ false) (some_inj t u (sym here ∙ e)) shut), f);
          behind = ss;
        })
        | inr odd ↦ rw odd (record { forward = f; behind = (s, ss) })
      ]

  All-weaker :
      (index : ℕ) (stack : List (ℕ × Token))
      → All (λ o. suc (o.0) ≤ index) stack
      → All (λ o. suc (o.0) ≤ suc index) stack
  All-weaker index [] h = tt
  All-weaker index (o ∷ os) (h, hs) = (omega (arith, h), All-weaker index os hs)

  later : (index : ℕ) (b : Brackets) → Ordered index b → Ordered (suc index) b
  later index b o = record { forward = o.forward; behind = All-weaker index b.stack o.behind }

  on_token-Ordered :
      (index : ℕ) (t : Token) (b : Brackets)
      → token_at ts index ≡ some t
      → Ordered index b
      → Ordered (suc index) (on_token index t b)
  on_token-Ordered index t b here o = elim (Bool-cases t.is_code) [
    | inr text ↦ rw text (later index b o)
    | inl code ↦ elim (Bool-cases (is_opener t)) [
      | inl opens ↦
          rw (code, opens)
            (record {
              forward = o.forward;
              behind = (omega arith, All-weaker index b.stack o.behind);
            })
      | inr shut ↦ elim (Bool-cases (is_closer t)) [
        | inl ends ↦
            rw (code, shut, ends)
              (later index (close_bracket index t b) (
                close_bracket-Ordered index t b.pairs b.stack b.unbalanced here shut o.forward
                  o.behind))
        | inr plain ↦ rw (code, shut, plain) (later index b o)
      ]
    ]
  ]

  brackets_from-Forward :
      (index : ℕ) (rest : List Token) (b : Brackets)
      → ((k : ℕ) → token_at rest k ≡ token_at ts (index + k))
      → Ordered index b
      → All Forward (brackets_from index rest b).pairs
  unfolding brackets_from
  brackets_from-Forward index [] b stands o = o.forward
  brackets_from-Forward index (t ∷ rest) b stands o =
      brackets_from-Forward (suc index) rest (on_token index t b)
        (λ k. stands (suc k) ∙ ap (token_at ts) (omega arith))
        (on_token-Ordered index t b (ap (token_at ts) (omega arith) ∙ sym (stands 0)) o)

  pub brackets-Forward : All Forward (brackets ts).pairs
  unfolding brackets
  brackets-Forward =
      brackets_from-Forward 0 ts (record { pairs = []; stack = []; unbalanced = [] })
        (λ k. ap (token_at ts) (omega arith)) (record { forward = tt; behind = tt })

  -- The partner of an opening bracket is ahead of it.
  pub partner_ahead :
      (pairs : List Pair) (index other : ℕ) (t : Token)
      → All Forward pairs
      → token_at ts index ≡ some t
      → is_opener t ≡ true
      → partner pairs index ≡ some other
      → suc index ≤ other
  partner_ahead [] index other t f here opens h = cc
  partner_ahead ((first, last) ∷ rest) index other t ((up, shut), f) here opens h =
      elim (Bool-cases (nat_beq first index)) [
        | inl own ↦ ground (arith, own, some_index last other (rw own at h), up)
        | inr apart ↦ elim (Bool-cases (nat_beq last index)) [
          | inl closing ↦
              absurd (cc (opens, shut t (ap (token_at ts) (ground (arith, closing)) ∙ here)))
          | inr elsewhere ↦
              partner_ahead rest index other t f here opens (rw (apart, elsewhere) at h)
        ]
      ]
