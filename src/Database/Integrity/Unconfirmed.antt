-- ===== src/Database/Integrity/Unconfirmed.antt =====
-- src/daemon/database/actions.rs: the integrity of the tables after a deposit was unconfirmed.
use mathlib.Core.List.{head?}
use revaultd.Prelude.{
  ℕ, ◌≡◌, ◌∙◌, refl, sym, subst, arith, Bool, true, false, not, Option, none, some, List, [], ◌∷◌,
  ◌==◌, ◌&&◌, ok, All-delete, All-imp, All-update_split, exists, exists-update, exists-delete_self,
  exists-delete_other, delete, Bool-cases, inl, inr, guard-eq-ok,
}
use revaultd.Database.Schema.{DbVault, DbTransaction, DbSpendInput, DbSpendTransaction, Db}
use revaultd.Database.Interface.{has_id}
use revaultd.Database.Presigned.{has_tx_id}
use revaultd.Database.Deposits.{
  of_vault, with_unconfirmed, spend_ids_of, delete_spend_of, is_referenced, drop_presigned,
  db_unconfirm_deposit_dbtx,
}
use revaultd.Database.Integrity.Inserts.{ok_inj}
use revaultd.Database.Integrity.{IsSound, has_spend_id, InputsHaveSpend, InputsHaveTx}

not-eq_true : (b : Bool) → not b ≡ true → b ≡ false
not-eq_true b e = ground arith

-- The Spend goes with its inputs.
inputs_kept :
    (spend_id : ℕ) (spends : List DbSpendTransaction) (inputs : List DbSpendInput)
    → InputsHaveSpend spends inputs
    → InputsHaveSpend
        (delete (has_spend_id spend_id) spends)
        (delete (λ (i : DbSpendInput). i.spend_id == spend_id) inputs)
unfolding delete
inputs_kept k spends [] h = tt
inputs_kept k spends (i ∷ is) (h, hs) = elim (Bool-cases (i.spend_id == k)) [
  | inl e ↦ rw e (inputs_kept k spends is hs)
  | inr e ↦ rw e (
    exists-delete_other (has_spend_id i.spend_id) (has_spend_id k) spends
          (λ s a. ground (arith, a, e))
        ∙ h,
    inputs_kept k spends is hs,
  )
]

delete_spend_of-IsSound : (o : Option ℕ) (db : Db) → IsSound db → IsSound (delete_spend_of o db)
unfolding delete_spend_of
delete_spend_of-IsSound none db s = s
delete_spend_of-IsSound (some k) db s = record {
  txs_have_vault = s.txs_have_vault;
  inputs_have_tx = All-delete _ _ db.spend_inputs s.inputs_have_tx;
  inputs_have_spend = inputs_kept k db.spends db.spend_inputs s.inputs_have_spend;
  unconfirmed_are_bare = s.unconfirmed_are_bare;
  spends_are_known = s.spends_are_known;
}

-- An input that refers to none of the vault's transactions keeps its own.
still_there :
    (vault_id : ℕ) (i : DbSpendInput) (txs : List DbTransaction)
    → exists (λ (r : DbTransaction). of_vault vault_id r && r.id == i.unvault_id) txs ≡ false
    → exists (has_tx_id i.unvault_id) txs ≡ true
    → exists (has_tx_id i.unvault_id) (delete (of_vault vault_id) txs) ≡ true
unfolding exists delete
still_there k i [] n h = h
still_there k i (r ∷ rs) n h = ground (arith, still_there k i rs)

-- No transaction of the vault is referred to, so this input does not refer to one.
not_referenced :
    (vault_id : ℕ) (i : DbSpendInput) (is : List DbSpendInput) (txs : List DbTransaction)
    → exists
        (λ (r : DbTransaction).
          of_vault vault_id r && exists (λ (j : DbSpendInput). j.unvault_id == r.id) (i ∷ is))
        txs
      ≡ false
    → (exists (λ (r : DbTransaction). of_vault vault_id r && r.id == i.unvault_id) txs ≡ false)
      × (exists
            (λ (r : DbTransaction).
              of_vault vault_id r && exists (λ (j : DbSpendInput). j.unvault_id == r.id) is)
            txs
          ≡ false)
unfolding exists
not_referenced k i is [] h = (refl, refl)
not_referenced k i is (r ∷ rs) h = ground (arith, not_referenced k i is rs)

InputsHaveTx-delete :
    (vault_id : ℕ) (inputs : List DbSpendInput) (txs : List DbTransaction)
    → exists
        (λ (r : DbTransaction).
          of_vault vault_id r && exists (λ (j : DbSpendInput). j.unvault_id == r.id) inputs)
        txs
      ≡ false
    → InputsHaveTx txs inputs
    → InputsHaveTx (delete (of_vault vault_id) txs) inputs
InputsHaveTx-delete k [] txs n h = tt
InputsHaveTx-delete k (i ∷ is) txs n (h, hs) =
    let (here, rest) = not_referenced k i is txs n in
    (still_there k i txs here h, InputsHaveTx-delete k is txs rest hs)

-- Fewer transactions.
still_bare :
    (p q : DbTransaction → Bool) (txs : List DbTransaction)
    → exists p txs ≡ false
    → exists p (delete q txs) ≡ false
unfolding exists delete
still_bare p q [] h = refl
still_bare p q (r ∷ rs) h = ground (arith, still_bare p q rs)

own_deleted :
    (vault_id : ℕ) (v : DbVault) (txs : List DbTransaction)
    → has_id vault_id v ≡ true
    → exists (of_vault v.id) (delete (of_vault vault_id) txs) ≡ false
own_deleted k v txs e =
    let same : v.id ≡ k = ground (arith, e) in
    subst (λ j. exists (of_vault j) (delete (of_vault k) txs) ≡ false) (sym same)
      (exists-delete_self (of_vault k) txs)

drop_presigned-IsSound :
    (vault_id : ℕ) (db : Db)
    → is_referenced vault_id db ≡ false
    → IsSound db
    → IsSound (drop_presigned vault_id db)
unfolding is_referenced
drop_presigned-IsSound k db n s = record {
  txs_have_vault =
      All-imp
        (λ (r : DbTransaction) e.
          exists-update (has_id r.vault_id) (has_id k) (with_unconfirmed db.now) db.vaults
            (λ v. refl)
          ∙ e)
        (delete (of_vault k) db.presigned)
        (All-delete _ (of_vault k) db.presigned s.txs_have_vault);
  inputs_have_tx = InputsHaveTx-delete k db.spend_inputs db.presigned n s.inputs_have_tx;
  inputs_have_spend = s.inputs_have_spend;
  unconfirmed_are_bare =
      All-update_split _ (has_id k) (with_unconfirmed db.now) db.vaults
        (λ v e _. own_deleted k v db.presigned e)
        (All-imp (λ v bare _ u. still_bare (of_vault v.id) (of_vault k) db.presigned (bare u))
          db.vaults s.unconfirmed_are_bare);
  spends_are_known =
      All-update_split _ (has_id k) (with_unconfirmed db.now) db.vaults
        (λ v _ a. elim a [ inl b ↦ absurd cc b | inr b ↦ absurd cc b ])
        (All-imp (λ v known _. known) db.vaults s.spends_are_known);
}

-- A deposit that is unconfirmed leaves the tables sound: the Spend that is deleted goes with its
-- inputs, and no other input refers to the transactions that are deleted.
pub db_unconfirm_deposit-IsSound :
    (vault_id : ℕ) (db : Db) {db' : Db}
    → db_unconfirm_deposit_dbtx vault_id db ≡ ok db'
    → IsSound db
    → IsSound db'
unfolding db_unconfirm_deposit_dbtx
db_unconfirm_deposit-IsSound k db h s =
    let (free, h1) = guard-eq-ok _ _ _ h in
    subst IsSound (ok_inj refl h1) (
      drop_presigned-IsSound k _ (not-eq_true _ free)
        (delete_spend_of-IsSound (head? (spend_ids_of k db.presigned db.spend_inputs)) db s))
