-- ===== src/Database/Deposits/Reorged.antt =====
-- A vault that two Spends spend from cannot be unconfirmed: the statement deletes one Spend, and the
-- input of the other keeps the transactions of the vault from being deleted.
use mathlib.Core.List.{head?}
use revaultd.Prelude.{
  ℕ, ◌≡◌, ◌≢◌, ◌⊎◌, inl, inr, refl, sym, subst, ◌∙◌, Bool, true, false, Option, none, some, List,
  [], ◌∷◌, ==_iff, ◌==◌, ◌&&◌, delete, exists, err, arith, exists-delete_other, Bool-cases,
}
use revaultd.Fault.{database, constraint_failed}
use revaultd.Database.Schema.{DbTransaction, DbSpendInput, Db}
use revaultd.Database.Deposits.{
  of_vault, spend_ids_of, delete_spend_of, is_referenced, db_unconfirm_deposit_dbtx,
}

-- An input of the Spend `s` names the transaction `t`.
abbrev pub spends_tx : ℕ → ℕ → DbSpendInput → Bool
spends_tx t s i = i.unvault_id == t && i.spend_id == s

-- The transaction `t` is of the vault, and an input of the Spend `s` names it.
abbrev pub SpendsFrom : ℕ → ℕ → ℕ → Db → Type 0
SpendsFrom vault_id t s db =
    (exists (λ (r : DbTransaction). of_vault vault_id r && r.id == t) db.presigned ≡ true)
    × (exists (spends_tx t s) db.spend_inputs ≡ true)

exists_imp :
    (p q : DbSpendInput → Bool) (xs : List DbSpendInput)
    → ((i : DbSpendInput) → p i ≡ true → q i ≡ true)
    → exists p xs ≡ true
    → exists q xs ≡ true
unfolding exists
exists_imp p q [] h e = cc
exists_imp p q (x ∷ xs) h e = ground (arith, h x, exists_imp p q xs h)

-- A transaction of the vault that an input names makes the vault referenced.
referenced :
    (k t : ℕ) (rows : List DbTransaction) (inputs : List DbSpendInput)
    → exists (λ (r : DbTransaction). of_vault k r && r.id == t) rows ≡ true
    → exists (λ (i : DbSpendInput). i.unvault_id == t) inputs ≡ true
    → exists
        (λ (r : DbTransaction).
          of_vault k r && exists (λ (i : DbSpendInput). i.unvault_id == r.id) inputs)
        rows
      ≡ true
unfolding exists
referenced k t [] inputs h e = cc
referenced k t (r ∷ rows) inputs h e = elim (Bool-cases (r.id == t)) [
  | inl m ↦
      let named : exists (λ (i : DbSpendInput). i.unvault_id == r.id) inputs ≡ true =
        subst (λ n. exists (λ (i : DbSpendInput). i.unvault_id == n) inputs ≡ true)
          (sym ((==_iff r.id t).0 m)) e in
      ground (arith, named, referenced k t rows inputs)
  | inr m ↦ ground (arith, m, referenced k t rows inputs)
]

-- An input of a Spend other than the deleted one keeps the vault referenced.
still_referenced :
    (k t s : ℕ) (deleted : Option ℕ) (db : Db)
    → SpendsFrom k t s db
    → deleted ≢ some s
    → is_referenced k (delete_spend_of deleted db) ≡ true
unfolding is_referenced delete_spend_of
still_referenced k t s none db h ne =
    referenced k t db.presigned db.spend_inputs h.0 (
      exists_imp (spends_tx t s) (λ i. i.unvault_id == t) db.spend_inputs (λ i e. ground arith) h.1)
still_referenced k t s (some d) db h ne =
    referenced k t db.presigned (delete (λ (i : DbSpendInput). i.spend_id == d) db.spend_inputs) h.0
      (exists_imp (spends_tx t s) (λ i. i.unvault_id == t)
        (delete (λ (i : DbSpendInput). i.spend_id == d) db.spend_inputs) (λ i e. ground arith)
        (exists-delete_other (spends_tx t s) (λ (i : DbSpendInput). i.spend_id == d) db.spend_inputs
            (λ i e. ground (arith, other i e))
          ∙ h.1))
  where
    other : (i : DbSpendInput) → spends_tx t s i ≡ true → (i.spend_id == d) ≡ false
    other i e = elim (Bool-cases (i.spend_id == d)) [
      | inl m ↦ absurd (ne (ground (arith, m, e)))
      | inr m ↦ m
    ]

refused :
    (k : ℕ) (db : Db)
    → is_referenced k (delete_spend_of (head? (spend_ids_of k db.presigned db.spend_inputs)) db)
      ≡ true
    → db_unconfirm_deposit_dbtx k db ≡ err (database constraint_failed)
unfolding db_unconfirm_deposit_dbtx
refused k db e = rw e refl

-- If two different Spends spend from a vault, unconfirming its deposit fails on the foreign key of
-- their inputs.
pub db_unconfirm_two_spends :
    (k t s t' s' : ℕ) (db : Db)
    → s ≢ s'
    → SpendsFrom k t s db
    → SpendsFrom k t' s' db
    → db_unconfirm_deposit_dbtx k db ≡ err (database constraint_failed)
db_unconfirm_two_spends k t s t' s' db ne a b =
    elim (first (head? (spend_ids_of k db.presigned db.spend_inputs))) [
      | inl n ↦ refused k db (still_referenced k t s _ db a n)
      | inr n ↦ refused k db (still_referenced k t' s' _ db b n)
    ]
  where
    first : (o : Option ℕ) → (o ≢ some s) ⊎ (o ≢ some s')
    first none = inl (λ e. cc)
    first (some d) = elim (Bool-cases (d == s)) [
      | inl m ↦ inr (λ e. ne (ground (arith, m, e)))
      | inr m ↦ inl (λ e. ground (arith, m, e))
    ]
