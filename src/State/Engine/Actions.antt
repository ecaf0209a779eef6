-- ===== src/State/Engine/Actions.antt =====
-- Steps on a state that may throw, and the world of the engine.
use lumengate.Prelude.{ℕ, ◌≡◌, refl, ap, ◌∙◌, ◌⊎◌, inl, inr, Bool, true, false, if◌then◌else◌}
use lumengate.Prelude.Result.{Error, Result, ok, err, err}
use lumengate.State.Types.{MemoryStore}

pub record World : Type 0 where
  pub store : MemoryStore
  pub calls : ℕ
  pub slept : ℕ

-- What is saved before a throw stays saved, so the state comes back beside the error.
abbrev pub Step : Type 0 → Type 0 → Type 0
Step W A = W → Result A × W

abbrev pub Action : Type 0 → Type 0
Action A = Step World A

module _ {W A : Type 0} where
  abbrev pub pure : A → Step W A
  pure a w = (ok a, w)

  abbrev pub raise : Error → Step W A
  raise e w = (err e, w)

  abbrev pub lift : Result A → Step W A
  lift r w = (r, w)

module _ {W A B : Type 0} where
  abbrev pub continue : Result A → (A → Step W B) → Step W B
  continue (ok a) f w = f a w
  continue (err e) f w = (err e, w)

  infixl 5 ◌>>=◌ ◌>>◌
  abbrev pub ◌>>=◌ : Step W A → (A → Step W B) → Step W B
  ◌>>=◌ m f w = let (r, w') = m w in continue r f w'

  abbrev pub ◌>>◌ : Step W A → Step W B → Step W B
  m >> n = m >>= λ _. n

-- The value and the world of two equal outcomes.
module _ {W A : Type 0} {w w' : W} where
  pub value-eq : {r r' : Result A} → ◌≡◌ {A = Result A × W} (r, w) (r', w') → r ≡ r'
  value-eq h = ap (λ p. p.0) h

  pub world-eq : {r r' : Result A} → ◌≡◌ {A = Result A × W} (r, w) (r', w') → w ≡ w'
  world-eq h = ap (λ p. p.1) h

module _ {W A B : Type 0} where
  continue-eq-ok :
      (r : Result A) (f : A → Step W B) (w : W) {b : B} {w' : W}
      → continue r f w ≡ (ok b, w')
      → (a : A) × (r ≡ ok a) × (f a w ≡ (ok b, w'))
  continue-eq-ok (ok a) f w h = (a, refl, h)
  continue-eq-ok (err e) f w h = cc (ap (λ (p : Result B × W). p.0) h)

  -- Inversion of an action that returned.
  pub bind-eq-ok :
      (m : Step W A) (f : A → Step W B) (w : W) {b : B} {w' : W}
      → (m >>= f) w ≡ (ok b, w')
      → (a : A) × (w1 : W) × (m w ≡ (ok a, w1)) × (f a w1 ≡ (ok b, w'))
  bind-eq-ok m f w h =
      let (a, e, k) = continue-eq-ok (m w).0 f (m w).1 h in
      (a, (m w).1, ap (λ r. (r, (m w).1)) e, k)

module _ {W A : Type 0} where
  -- The branch that an action took.
  pub if-eq :
      (b : Bool) (m n : Step W A) (w : W) {r : Result A × W}
      → (if b then m else n) w ≡ r
      → ((b ≡ true) × (m w ≡ r)) ⊎ ((b ≡ false) × (n w ≡ r))
  if-eq true m n w h = inl (refl, h)
  if-eq false m n w h = inr (refl, h)

  -- A step that returned passed its guard.
  pub passed-eq :
      (b : Bool) (e : Error) (n : Step W A) (w : W) {a : A} {w' : W}
      → (if b then raise e else n) w ≡ (ok a, w')
      → (b ≡ false) × (n w ≡ (ok a, w'))
  passed-eq true e n w h = cc (value-eq h)
  passed-eq false e n w h = (refl, h)

module _ {W A B : Type 0} where
  -- An action whose value was turned into the result.
  pub last-eq-ok :
      (m : Step W A) (f : A → B) (w : W) {b : B} {w' : W}
      → (m >>= λ a. pure (f a)) w ≡ (ok b, w')
      → (a : A) × (m w ≡ (ok a, w'))
  last-eq-ok m f w h =
      let (a, w1, e, k) = bind-eq-ok m (λ x. pure (f x)) w h in
      (a, e ∙ ap (λ (x : W). (ok a, x)) (world-eq k))
