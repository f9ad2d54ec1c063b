-- ===== src/Graph/Reachable.antt =====
-- What the search loop finds is what the links reach (mcp/gxp_core/business_graph_algorithms.py).
use mathlib.Core.List.{reverse-cons}
use look_lowcode.Prelude.{
  ℕ, zero, suc, String, true, not, ◌&&◌, ◌||◌, some, List, [], ◌∷◌, ◌++◌, reverse, ◌==◌, eq_iff,
  eq_refl, one_of, Bool-cases, inl, inr, ◌≡◌, refl, sym, ◌∙◌, arith, ◌↔◌,
}
use mathlib.Core.Path.{subst}
use look_lowcode.Graph.Adjacency.{Links}
use look_lowcode.Graph.Search.{next, outside, search}

-- A walk along the links.
pub data Reach (links : Links) (v : String) : String → Type 0 where
  here : Reach links v v
  step : {u w : String} → Reach links v u → one_of w (next links u) ≡ true → Reach links v w

pub one_of-append :
    (x : String) (xs ys : List String) → one_of x (xs ++ ys) ≡ (one_of x xs || one_of x ys)
one_of-append x [] ys = refl
one_of-append x (y ∷ xs) ys = ground (arith, one_of-append x xs ys)

one_of-reverse : (x : String) (xs : List String) → one_of x (reverse xs) ≡ one_of x xs
one_of-reverse x [] = refl
one_of-reverse x (y ∷ xs) =
    rw (reverse-cons y xs)
      (one_of-append x (reverse xs) (y ∷ []) ∙ ground (arith, one_of-reverse x xs))

pub one_of-outside :
    (x : String) (found xs : List String)
    → one_of x (outside found xs) ≡ (not (one_of x found) && one_of x xs)
one_of-outside x found [] = ground arith
one_of-outside x found (y ∷ xs) = elim (Bool-cases (x == y)) [
  | inl same ↦ rw (← (eq_iff x y).0 same) (elim (Bool-cases (one_of x found)) [
    | inl old ↦ ground (arith, one_of-outside x found xs)
    | inr new ↦ rw new (ground (arith, eq_refl x))
  ])
  | inr other ↦ ground (arith, one_of-outside x found xs)
]

one_of-pushed :
    (x : String) (found ns pending : List String)
    → one_of x (reverse (outside found ns) ++ pending)
      ≡ (not (one_of x found) && one_of x ns || one_of x pending)
one_of-pushed x found ns pending =
    one_of-append x (reverse (outside found ns)) pending
    ∙ rw (one_of-reverse x (outside found ns), one_of-outside x found ns) refl

module _ (links : Links) (root : String) where
  pub record Inv (pending found : List String) : Type 0 where
    pub seen : (x : String) → one_of x found ≡ true → Reach links root x
    pub waiting : (x : String) → one_of x pending ≡ true → Reach links root x
    pub closed :
        (u w : String)
        → one_of u found ≡ true
        → one_of w (next links u) ≡ true
        → (one_of w found || one_of w pending) ≡ true
    pub begun : (one_of root found || one_of root pending) ≡ true

  Inv-skip :
      (c : String) (pending found : List String)
      → one_of c found ≡ true
      → Inv (c ∷ pending) found
      → Inv pending found
  Inv-skip c pending found old i = record {
    seen = i.seen;
    waiting = λ x h. i.waiting x (ground arith);
    closed = λ u w h k. dropped w (i.closed u w h k);
    begun = dropped root i.begun;
  }
    where
      dropped :
          (w : String)
          → (one_of w found || one_of w (c ∷ pending)) ≡ true
          → (one_of w found || one_of w pending) ≡ true
      dropped w h = elim (Bool-cases (w == c)) [
        | inl same ↦ rw ((eq_iff w c).0 same, old) refl
        | inr other ↦ ground arith
      ]

  Inv-visit :
      (c : String) (pending found : List String)
      → Inv (c ∷ pending) found
      → Inv (reverse (outside (c ∷ found) (next links c)) ++ pending) (c ∷ found)
  Inv-visit c pending found i = record {
    seen = λ x h. found_later x h;
    waiting = λ x h. pushed_reach x (rw (one_of-pushed x (c ∷ found) (next links c) pending) at h);
    closed = λ u w h k. closed_later u w h k;
    begun = kept root i.begun;
  }
    where
      at_c : Reach links root c
      at_c = i.waiting c (rw (eq_refl c) refl)

      found_later : (x : String) → one_of x (c ∷ found) ≡ true → Reach links root x
      found_later x h = elim (Bool-cases (x == c)) [
        | inl same ↦ subst (Reach links root) (sym ((eq_iff x c).0 same)) at_c
        | inr other ↦ i.seen x (ground arith)
      ]

      pushed_reach :
          (x : String)
          → (not (one_of x (c ∷ found)) && one_of x (next links c) || one_of x pending) ≡ true
          → Reach links root x
      pushed_reach x h = elim (Bool-cases (one_of x pending)) [
        | inl old ↦ i.waiting x (ground arith)
        | inr new ↦ step at_c (ground arith)
      ]

      kept :
          (w : String)
          → (one_of w found || one_of w (c ∷ pending)) ≡ true
          → (one_of w (c ∷ found)
              || one_of w (reverse (outside (c ∷ found) (next links c)) ++ pending))
            ≡ true
      kept w h = ground (arith, one_of-pushed w (c ∷ found) (next links c) pending)

      closed_later :
          (u w : String)
          → one_of u (c ∷ found) ≡ true
          → one_of w (next links u) ≡ true
          → (one_of w (c ∷ found)
              || one_of w (reverse (outside (c ∷ found) (next links c)) ++ pending))
            ≡ true
      closed_later u w h k = elim (Bool-cases (u == c)) [
        | inl same ↦
            let k' : one_of w (next links c) ≡ true =
              subst (λ t. one_of w (next links t) ≡ true) ((eq_iff u c).0 same) k in
            ground (arith, one_of-pushed w (c ∷ found) (next links c) pending)
        | inr other ↦ kept w (i.closed u w (ground arith) k)
      ]

  search-Inv :
      (fuel : ℕ) (pending found : List String) (result : List String)
      → Inv pending found
      → search links fuel pending found ≡ some result
      → Inv [] result
  unfolding search
  search-Inv zero [] found result i h = subst (Inv []) (ground arith) i
  search-Inv (suc fuel) [] found result i h = subst (Inv []) (ground arith) i
  search-Inv zero (c ∷ pending) found result i h = absurd (ground arith)
  search-Inv (suc fuel) (c ∷ pending) found result i h = elim (Bool-cases (one_of c found)) [
    | inl old ↦ search-Inv fuel pending found result (Inv-skip c pending found old i) (rw old at h)
    | inr new ↦
        search-Inv fuel (reverse (outside (c ∷ found) (next links c)) ++ pending) (c ∷ found) result
          (Inv-visit c pending found i) (rw new at h)
  ]

  complete :
      (result : List String)
      → Inv [] result
      → {v : String} → Reach links root v
      → one_of v result ≡ true
  complete result i here = ground (arith, i.begun)
  complete result i (step {u} {w} walk k) = ground (arith, i.closed u w (complete result i walk) k)

  Inv-start : Inv (root ∷ []) []
  Inv-start = record {
    seen = λ x h. absurd (cc);
    waiting = λ x h. subst (Reach links root) (sym ((eq_iff x root).0 (ground arith))) here;
    closed = λ u w h k. cc;
    begun = rw (eq_refl root) refl;
  }

  -- The search from a root finds the nodes that walks from the root reach.
  pub search_iff :
      (fuel : ℕ) (result : List String)
      → search links fuel (root ∷ []) [] ≡ some result
      → (v : String) → (one_of v result ≡ true) ↔ Reach links root v
  search_iff fuel result h v =
      let i = search-Inv fuel (root ∷ []) [] result Inv-start h in (i.seen v, complete result i)
