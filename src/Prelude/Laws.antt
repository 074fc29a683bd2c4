-- ===== src/Prelude/Laws.antt =====
-- Laws of the table operations: what an answer is after an update, an insertion or a deletion.
use Prim.Native.Nat.{suc}
use mathlib.Core.Path.{◌≡◌, refl, ap, ◌∙◌}
use mathlib.Core.Bool.{Bool, true}
use mathlib.Core.List.{List, [], ◌∷◌, ◌++◌, map}
use mathlib.Core.Option
use mathlib.Core.Option.{Option, none, some}
use native.Mathlib.Omega.{arith}
use revaultd.Prelude.Tests.{if◌then◌else◌}
use revaultd.Prelude.Tables.{length, select, update, pop}

-- A predicate on every row.
abbrev pub All {ℓ κ} : {A : Type ℓ} → (A → Type κ) → List A → Type κ
All P [] = Unit
All P (x ∷ xs) = P x × All P xs

module _ {ℓ} {A : Type ℓ} where
  pub select-append :
      (p : A → Bool) (xs ys : List A) → select p (xs ++ ys) ≡ select p xs ++ select p ys
  unfolding select
  select-append p [] ys = refl
  select-append p (x ∷ xs) ys = ground (arith, select-append p xs ys)

  pub pop-append_one : (xs : List A) (y : A) → pop (xs ++ y ∷ []) ≡ some y
  unfolding pop
  pop-append_one [] y = refl
  pop-append_one (x ∷ xs) y = ground (arith, pop-append_one xs y)

  pub pop-map : (g : A → A) (xs : List A) → pop (map g xs) ≡ Option.map g (pop xs)
  unfolding pop
  pop-map g [] = refl
  pop-map g (x ∷ xs) = ground (arith, pop-map g xs)

  abbrev pub touched : (A → Bool) → (A → A) → A → A
  touched q f x = if q x then f x else x

  -- A test that the update does not disturb selects the updated rows.
  pub select-update :
      (p q : A → Bool) (f : A → A) (xs : List A)
      → ((x : A) → p (f x) ≡ p x)
      → select p (update q f xs) ≡ map (touched q f) (select p xs)
  unfolding select update
  select-update p q f [] h = refl
  select-update p q f (x ∷ xs) h = ground (arith, h x, select-update p q f xs h)

  pub pop-select-update :
      (p q : A → Bool) (f : A → A) (xs : List A)
      → ((x : A) → p (f x) ≡ p x)
      → pop (select p (update q f xs)) ≡ Option.map (touched q f) (pop (select p xs))
  pop-select-update p q f xs h =
      ap pop (select-update p q f xs h) ∙ pop-map (touched q f) (select p xs)

  pub pop-select : (p : A → Bool) (xs : List A) {x : A} → pop (select p xs) ≡ some x → p x ≡ true
  unfolding select pop
  pop-select p [] h = cc
  pop-select p (x ∷ xs) {x = y} h = ground (arith, pop-select p xs {x = y})

  pub length-update : (q : A → Bool) (f : A → A) (xs : List A) → length (update q f xs) ≡ length xs
  unfolding update
  length-update q f [] = refl
  length-update q f (x ∷ xs) = ap suc (length-update q f xs)
