-- ===== src/Prelude/Outcome.antt =====
-- Rust's `Result`: a value or an error, with `?` as the bind of a `do` block.
use mathlib.Core.Path.{◌≡◌, refl}
use mathlib.Core.Logic.{◌⊎◌, inl, inr}
use mathlib.Core.Option.{Option, none, some}
use mathlib.Core.Bool.{Bool, true, false}

pub data Result {ℓ κ} (E : Type ℓ) (A : Type κ) : Type (ℓ ⊔ κ) where
  ok : A → Result E A
  err : E → Result E A

module _ {ℓ} {E : Type ℓ} where
  -- `ok_or`: an absent value becomes the error.
  abbrev pub ok_or {κ} : {A : Type κ} → E → Option A → Result E A
  ok_or e none = err e
  ok_or e (some a) = ok a

  abbrev pub map_err {κ μ} : {F : Type κ} {A : Type μ} → (E → F) → Result E A → Result F A
  map_err f (err e) = err (f e)
  map_err f (ok a) = ok a

  -- An early `return Err(e)` unless the test holds.
  abbrev pub guard : E → Bool → Result E (Unit {0})
  guard e b = elim b [ false ↦ err e | true ↦ ok tt ]

  infixl 5 ◌>>=◌ ◌>>◌
  abbrev pub ◌>>=◌ {κ μ} : {A : Type κ} {B : Type μ} → Result E A → (A → Result E B) → Result E B
  err e >>= f = err e
  ok a >>= f = f a

  abbrev pub ◌>>◌ {κ} : {B : Type κ} → Result E (Unit {0}) → Result E B → Result E B
  m >> rest = m >>= (λ _. rest)

  -- A chain that succeeds has a first step that does, and its rest from there.
  pub >>=-eq-ok {κ μ} :
      {A : Type κ} {B : Type μ} (m : Result E A) (f : A → Result E B) {b : B}
      → (m >>= f) ≡ ok b
      → (a : A) × (m ≡ ok a) × (f a ≡ ok b)
  >>=-eq-ok (err e) f succeeds = cc
  >>=-eq-ok (ok a) f succeeds = (a, refl, succeeds)

  -- A test that guards a chain that succeeds holds, and so does the rest.
  pub guard-eq-ok {μ} :
      {B : Type μ} (e : E) (b : Bool) (rest : Result E B) {x : B}
      → (guard e b >> rest) ≡ ok x
      → (b ≡ true) × (rest ≡ ok x)
  guard-eq-ok e false rest h = cc
  guard-eq-ok e true rest h = (refl, h)

  pub ok_or-eq-ok {κ μ} :
      {A : Type κ} {B : Type μ} (e : E) (o : Option A) (f : A → Result E B) {x : B}
      → (ok_or e o >>= f) ≡ ok x
      → (a : A) × (o ≡ some a) × (f a ≡ ok x)
  ok_or-eq-ok e none f h = cc
  ok_or-eq-ok e (some a) f h = (a, refl, h)

  pub map_err-eq-ok {κ μ} :
      {F : Type μ} {A : Type κ} (g : E → F) (r : Result E A) {x : A} → map_err g r ≡ ok x → r ≡ ok x
  map_err-eq-ok g (err e) h = cc
  map_err-eq-ok g (ok a) h = cc

  pub Result-cases {κ} :
      {A : Type κ} (r : Result E A) → ((a : A) × (r ≡ ok a)) ⊎ ((e : E) × (r ≡ err e))
  Result-cases (ok a) = inl (a, refl)
  Result-cases (err e) = inr (e, refl)
