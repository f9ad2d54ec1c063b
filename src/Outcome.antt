-- ===== src/Outcome.antt =====
-- What a call of Python code that may raise comes to: an answer, or what it raises.
use look_lowcode.Prelude.{Bool, true, false, List, [], ◌∷◌, ◌≡◌, refl, ◌∙◌, ap}

pub data Outcome (E A : Type 0) : Type 0 where
  raised : E → Outcome E A
  done : A → Outcome E A

module _ {E : Type 0} where
  infixl 5 ◌>>=◌ ◌>>◌
  abbrev pub ◌>>=◌ : {A B : Type 0} → Outcome E A → (A → Outcome E B) → Outcome E B
  ◌>>=◌ (raised e) next = raised e
  ◌>>=◌ (done a) next = next a

  abbrev pub ◌>>◌ : {B : Type 0} → Outcome E (Unit {0}) → Outcome E B → Outcome E B
  ◌>>◌ first next = first >>= λ _. next

  -- if not test: raise e
  abbrev pub require : Bool → E → Outcome E (Unit {0})
  require false e = raised e
  require true e = done tt

  -- for x in xs: check(x)
  unfoldable pub each : {A : Type 0} → (A → Outcome E (Unit {0})) → List A → Outcome E (Unit {0})
  each check [] = done tt
  each check (x ∷ xs) = check x >> each check xs

  -- An answer of a chain has an answer of its first part.
  pub bind-eq_done :
      {A B : Type 0} (m : Outcome E A) (next : A → Outcome E B) {b : B}
      → (m >>= next) ≡ done b
      → (a : A) × (m ≡ done a) × (next a ≡ done b)
  bind-eq_done (raised e) next h = cc
  bind-eq_done (done a) next h = (a, refl, h)

  pub then-eq_done :
      {B : Type 0} (m : Outcome E (Unit {0})) (next : Outcome E B) {b : B}
      → (m >> next) ≡ done b
      → (m ≡ done tt) × (next ≡ done b)
  then-eq_done (raised e) next h = cc
  then-eq_done (done tt) next h = (refl, h)

  pub require-eq_done : (test : Bool) (e : E) → require test e ≡ done tt → test ≡ true
  require-eq_done false e h = cc
  require-eq_done true e h = refl

  pub done_inj : {A : Type 0} (a b : A) → ◌≡◌ {A = Outcome E A} (done a) (done b) → a ≡ b
  done_inj a b h = cc

  -- A chain goes on with the only answer that its first part can have.
  pub bind_known :
      {A B : Type 0} (m : Outcome E A) (next : A → Outcome E B) (a : A) {b : B}
      → ((x : A) → m ≡ done x → a ≡ x)
      → (m >>= next) ≡ done b
      → next a ≡ done b
  bind_known (raised e) next a only h = cc
  bind_known (done x) next a only h = ap next (only x refl) ∙ h

  -- A test before an answer does not change it.
  pub require_known :
      {A : Type 0} (test : Bool) (e : E) (a x : A)
      → ◌≡◌ {A = Outcome E A} (require test e >> done a) (done x)
      → a ≡ x
  require_known false e a x h = cc
  require_known true e a x h = done_inj a x h
