-- ===== src/Dict.antt =====
-- Python's `dict` with text keys, in the order of first insertion.
use look_lowcode.Prelude.{
  String, Option, none, some, List, [], ◌∷◌, ◌==◌, eq_iff, ◌≡◌, refl, arith, if◌then◌else◌,
}

abbrev pub Dict {ℓ} : Type ℓ → Type ℓ
Dict V = List (String × V)

module _ {ℓ} {V : Type ℓ} where
  -- d.get(key)
  unfoldable pub lookup : String → Dict V → Option V
  lookup key [] = none
  lookup key ((k, v) ∷ rest) = if k == key then some v else lookup key rest

  -- d[key] = v
  unfoldable pub insert : String → V → Dict V → Dict V
  insert key v [] = (key, v) ∷ []
  insert key v ((k, w) ∷ rest) = if k == key then (k, v) ∷ rest else (k, w) ∷ insert key v rest

  -- d.setdefault(key, v), for its effect
  unfoldable pub set_default : String → V → Dict V → Dict V
  set_default key v [] = (key, v) ∷ []
  set_default key v ((k, w) ∷ rest) =
      if k == key then (k, w) ∷ rest else (k, w) ∷ set_default key v rest

  abbrev pub values : Dict V → List V
  values [] = []
  values ((k, v) ∷ rest) = v ∷ values rest

  -- d.get(key, default)
  abbrev pub value_or : V → Option V → V
  value_or d none = d
  value_or d (some v) = v

module _ {ℓ} {V : Type ℓ} where
  pub lookup-insert :
      (k j : String) (v : V) (d : Dict V)
      → lookup j (insert k v d) ≡ (if k == j then some v else lookup j d)
  unfolding lookup insert
  lookup-insert k j v [] = refl
  lookup-insert k j v ((i, w) ∷ d) =
      ground (arith, eq_iff k j, eq_iff i k, eq_iff i j, lookup-insert k j v d)

  pub lookup-set_default :
      (k j : String) (v : V) (d : Dict V)
      → lookup j (set_default k v d)
        ≡ (if k == j then some (value_or v (lookup k d)) else lookup j d)
  unfolding lookup set_default
  lookup-set_default k j v [] = refl
  lookup-set_default k j v ((i, w) ∷ d) =
      ground (arith, eq_iff k j, eq_iff i k, eq_iff i j, lookup-set_default k j v d)
