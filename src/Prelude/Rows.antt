-- ===== src/Prelude/Rows.antt =====
-- Laws of `exists`, `delete` and `All` over a table, and keys without duplicates.
use mathlib.Core.Path.{◌≡◌, refl, subst}
use mathlib.Core.Logic.{inl, inr}
use mathlib.Core.Bool.{Bool, true, false, ◌||◌}
use mathlib.Core.List.{List, [], ◌∷◌, ◌++◌}
use mathlib.Core.Option.{some}
use native.Mathlib.Omega.{arith}
use revaultd.Prelude.Tests.{Bool-cases, Option-cases}
use revaultd.Prelude.Tables.{select, update, delete, pop, exists}
use revaultd.Prelude.Laws.{All}

module _ {ℓ} {A : Type ℓ} where
  pub exists-update :
      (p q : A → Bool) (f : A → A) (xs : List A)
      → ((x : A) → p (f x) ≡ p x)
      → exists p (update q f xs) ≡ exists p xs
  unfolding exists update
  exists-update p q f [] h = refl
  exists-update p q f (x ∷ xs) h = ground (arith, h x, exists-update p q f xs h)

  pub exists-append :
      (p : A → Bool) (xs ys : List A) → exists p (xs ++ ys) ≡ exists p xs || exists p ys
  unfolding exists
  exists-append p [] ys = refl
  exists-append p (x ∷ xs) ys = ground (arith, exists-append p xs ys)

  -- A row that an answer has, the table has.
  pub exists_of_pop :
      (p : A → Bool) (xs : List A) {x : A} → pop (select p xs) ≡ some x → exists p xs ≡ true
  unfolding pop select exists
  exists_of_pop p [] h = cc
  exists_of_pop p (y ∷ xs) {x} h = ground (arith, exists_of_pop p xs {x = x})

  pub exists-delete_self : (p : A → Bool) (xs : List A) → exists p (delete p xs) ≡ false
  unfolding exists delete
  exists-delete_self p [] = refl
  exists-delete_self p (x ∷ xs) = ground (arith, exists-delete_self p xs)

  -- A deletion by a test that no row of `p` passes keeps the rows of `p`.
  pub exists-delete_other :
      (p q : A → Bool) (xs : List A)
      → ((x : A) → p x ≡ true → q x ≡ false)
      → exists p (delete q xs) ≡ exists p xs
  unfolding exists delete
  exists-delete_other p q [] h = refl
  exists-delete_other p q (x ∷ xs) h = ground (arith, h x, exists-delete_other p q xs h)

  pub delete_none : (p : A → Bool) (xs : List A) → exists p xs ≡ false → delete p xs ≡ xs
  unfolding exists delete
  delete_none p [] h = refl
  delete_none p (x ∷ xs) h = ground (arith, delete_none p xs)

  pub delete-append :
      (p : A → Bool) (xs ys : List A) → delete p (xs ++ ys) ≡ delete p xs ++ delete p ys
  unfolding delete
  delete-append p [] ys = refl
  delete-append p (x ∷ xs) ys = ground (arith, delete-append p xs ys)

  -- Two updates of the same rows are one.
  pub update-update :
      (q : A → Bool) (f g : A → A) (xs : List A)
      → ((x : A) → q (f x) ≡ q x)
      → update q g (update q f xs) ≡ update q (λ x. g (f x)) xs
  unfolding update
  update-update q f g [] h = refl
  update-update q f g (x ∷ xs) h = ground (arith, h x, update-update q f g xs h)

module _ {ℓ κ} {A : Type ℓ} (P : A → Type κ) where
  pub All-append : (xs ys : List A) → All P xs → All P ys → All P (xs ++ ys)
  All-append [] ys hx hy = hy
  All-append (x ∷ xs) ys hx hy = (hx.0, All-append xs ys hx.1 hy)

  pub All-update :
      (q : A → Bool) (f : A → A) (xs : List A)
      → ((x : A) → q x ≡ true → P x → P (f x))
      → All P xs
      → All P (update q f xs)
  unfolding update
  All-update q f [] h hx = tt
  All-update q f (x ∷ xs) h hx = elim (Bool-cases (q x)) [
    | inl e ↦ rw e (h x e hx.0, All-update q f xs h hx.1)
    | inr e ↦ rw e (hx.0, All-update q f xs h hx.1)
  ]

  -- The rows that are not touched satisfy it already, the others after the change.
  pub All-update_split :
      (q : A → Bool) (f : A → A) (xs : List A)
      → ((x : A) → q x ≡ true → P (f x))
      → All (λ x. q x ≡ false → P x) xs
      → All P (update q f xs)
  unfolding update
  All-update_split q f [] h hx = tt
  All-update_split q f (x ∷ xs) h hx = elim (Bool-cases (q x)) [
    | inl e ↦ rw e (h x e, All-update_split q f xs h hx.1)
    | inr e ↦ rw e (hx.0 e, All-update_split q f xs h hx.1)
  ]

  pub All-delete : (q : A → Bool) (xs : List A) → All P xs → All P (delete q xs)
  unfolding delete
  All-delete q [] hx = tt
  All-delete q (x ∷ xs) hx = elim (Bool-cases (q x)) [
    | inl e ↦ rw e (All-delete q xs hx.1)
    | inr e ↦ rw e (hx.0, All-delete q xs hx.1)
  ]

  pub All-select : (q : A → Bool) (xs : List A) → All P xs → All P (select q xs)
  unfolding select
  All-select q [] hx = tt
  All-select q (x ∷ xs) hx = elim (Bool-cases (q x)) [
    | inl e ↦ rw e (hx.0, All-select q xs hx.1)
    | inr e ↦ rw e (All-select q xs hx.1)
  ]

  pub All-pop : (xs : List A) {x : A} → All P xs → pop xs ≡ some x → P x
  unfolding pop
  All-pop [] hx h = cc
  All-pop (y ∷ xs) {x} hx h = elim (Option-cases (pop xs)) [
    | inl e ↦ let here : y ≡ x = ground arith in subst P here hx.0
    | inr (z, e) ↦ All-pop xs hx.1 (ground arith)
  ]

module _ {ℓ κ μ} {A : Type ℓ} {P : A → Type κ} {Q : A → Type μ} where
  pub All-imp : ((x : A) → P x → Q x) → (xs : List A) → All P xs → All Q xs
  All-imp h [] hx = tt
  All-imp h (x ∷ xs) hx = (h x hx.0, All-imp h xs hx.1)
