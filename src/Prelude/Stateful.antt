-- ===== src/Prelude/Stateful.antt =====
-- Routines that change a state and may fail: what one returns, or how it fails, and the state that
-- it leaves. A failure keeps what was written before it. The operators serve every state and error.
use mathlib.Core.Path.{◌≡◌, refl}
use mathlib.Core.Bool.{Bool, true, false}
use mathlib.Core.List.{List, [], ◌∷◌}
use native.Mathlib.Omega.{arith}
use revaultd.Prelude.Tests.{if◌then◌else◌}
use revaultd.Prelude.Outcome.{Result, ok, err}

abbrev pub Stateful {σ ε α} : Type σ → Type ε → Type α → Type (σ ⊔ ε ⊔ α)
Stateful S E A = S → Result E A × S

module _ {σ ε} {S : Type σ} {E : Type ε} where
  abbrev pub after {α β} :
      {A : Type α} {B : Type β} → Result E A × S → (A → S → Result E B × S) → Result E B × S
  after (ok a, w) f = f a w
  after (err e, w) f = (err e, w)

  infixl 5 ◌>>=◌ ◌>>◌
  abbrev pub ◌>>=◌ {α β} :
      {A : Type α} {B : Type β}
      → (S → Result E A × S)
      → (A → S → Result E B × S)
      → S
      → Result E B × S
  m >>= f = λ w. after (m w) f

  abbrev pub ◌>>◌ {β} :
      {B : Type β} → (S → Result E (Unit {0}) × S) → (S → Result E B × S) → S → Result E B × S
  m >> rest = m >>= (λ _. rest)

  abbrev pub return {α} : {A : Type α} → A → S → Result E A × S
  return a w = (ok a, w)

  abbrev pub fail {α} : {A : Type α} → E → S → Result E A × S
  fail e w = (err e, w)

  -- `?` on a result.
  abbrev pub lift {α} : {A : Type α} → Result E A → S → Result E A × S
  lift r w = (r, w)

  -- `match m { Ok(a) => a, Err(_) => default }`, which does not catch what is not an error of the
  -- source, such as a panic.
  abbrev pub rescued {α} : {A : Type α} → (E → Bool) → A → Result E A × S → Result E A × S
  rescued is_fatal d (ok a, w) = (ok a, w)
  rescued is_fatal d (err e, w) = (if is_fatal e then err e else ok d, w)

  -- `for x in xs`
  unfoldable pub each {α} :
      {A : Type α} → List A → (A → S → Result E (Unit {0}) × S) → S → Result E (Unit {0}) × S
  each [] body = return tt
  each (x ∷ xs) body = body x >> each xs body

  -- A chain that returns has a first step that does, and goes on from the state that it left.
  pub after-eq-ok {α β} :
      {A : Type α} {B : Type β} (p : Result E A × S) (f : A → S → Result E B × S) {b : B} {w' : S}
      → after p f ≡ (ok b, w')
      → (a : A) × (p.0 ≡ ok a) × (f a p.1 ≡ (ok b, w'))
  after-eq-ok (ok a, w) f h = (a, refl, h)
  after-eq-ok (err e, w) f {b} {w'} h = absurd (ground arith)

  pub after_assoc {α β γ} :
      {A : Type α} {B : Type β} {C : Type γ} (p : Result E A × S) (f : A → S → Result E B × S)
      (g : B → S → Result E C × S)
      → after (after p f) g ≡ after p (λ a w. after (f a w) g)
  after_assoc (ok a, w) f g = refl
  after_assoc (err e, w) f g = refl

  -- The branch that was taken.
  pub else_of {α} :
      {A : Type α} (b : Bool) (m n : S → Result E A × S) (w : S) {x : Result E A × S}
      → b ≡ false
      → (if b then m else n) w ≡ x
      → n w ≡ x
  else_of true m n w e h = cc
  else_of false m n w e h = h
