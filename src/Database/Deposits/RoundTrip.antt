-- ===== src/Database/Deposits/RoundTrip.antt =====
-- `db_unconfirm_deposit_dbtx` is "the opposite of db_confirm_deposit".
use mathlib.Core.List.{append-nil, append_assoc}
use revaultd.Prelude.{
  ℕ, ◌≡◌, inl, inr, refl, ap, subst, ==_iff, ◌∙◌, true, false, Option, some, List, [], ◌∷◌, ◌++◌,
  map, ◌==◌, ◌&&◌, select, update, delete, exists, ok, arith, All, All-pop, All-select,
  exists-append, delete-append, delete_none, update-update, Bool-cases,
}
use revaultd.Status.{unconfirmed}
use revaultd.Database.Schema.{OutPoint, Psbt, DbVault, DbTransaction, DbSpendInput, Db}
use revaultd.Database.Interface.{has_id, at_deposit, db_vault_by_deposit}
use revaultd.Database.Presigned.{has_tx_id}
use revaultd.Database.Deposits.{
  of_vault, spend_ids_of, is_referenced, with_unconfirmed, with_confirmation, drop_presigned,
  db_confirm_deposit, db_unconfirm_deposit_dbtx,
}
use revaultd.Database.Deposits.Store.{IsNew, Stores, store_all-Stores}
use revaultd.Database.Integrity.{IsSound, InputsHaveTx}

-- Without a transaction of the vault, no Spend is found for it.
spend_ids_of_bare :
    (k : ℕ) (rows : List DbTransaction) (inputs : List DbSpendInput)
    → exists (of_vault k) rows ≡ false
    → spend_ids_of k rows inputs ≡ []
unfolding spend_ids_of exists
spend_ids_of_bare k [] inputs h = refl
spend_ids_of_bare k (r ∷ rows) inputs h = ground (arith, spend_ids_of_bare k rows inputs)

unreferenced_bare :
    (k : ℕ) (rows : List DbTransaction) (inputs : List DbSpendInput)
    → exists (of_vault k) rows ≡ false
    → exists
        (λ (r : DbTransaction).
          of_vault k r && exists (λ (i : DbSpendInput). i.unvault_id == r.id) inputs)
        rows
      ≡ false
unfolding exists
unreferenced_bare k [] inputs h = refl
unreferenced_bare k (r ∷ rows) inputs h = ground (arith, unreferenced_bare k rows inputs)

-- No input refers to a transaction that is not in the database.
unreferenced :
    (txs : List DbTransaction) (inputs : List DbSpendInput) (t : ℕ)
    → InputsHaveTx txs inputs
    → exists (has_tx_id t) txs ≡ false
    → (select (λ (i : DbSpendInput). i.unvault_id == t) inputs ≡ [])
      × (exists (λ (i : DbSpendInput). i.unvault_id == t) inputs ≡ false)
unfolding select exists
unreferenced txs [] t h e = (refl, refl)
unreferenced txs (i ∷ inputs) t h e = elim (Bool-cases (i.unvault_id == t)) [
  | inl m ↦
      let found : exists (has_tx_id t) txs ≡ true =
        subst (λ n. exists (has_tx_id n) txs ≡ true) ((==_iff i.unvault_id t).0 m) h.0 in
      absurd (cc (found, e))
  | inr m ↦ ground (arith, m, unreferenced txs inputs t h.1 e)
]

-- New rows of the vault bring no Spend with them, and no input refers to them.
spend_ids_of_new :
    (k : ℕ) (db : Db) (rows : List DbTransaction)
    → InputsHaveTx db.presigned db.spend_inputs
    → All (IsNew k db) rows
    → spend_ids_of k rows db.spend_inputs ≡ []
unfolding spend_ids_of
spend_ids_of_new k db [] h n = refl
spend_ids_of_new k db (r ∷ rows) h n = ground (
  arith,
  unreferenced db.presigned db.spend_inputs r.id h n.0.2,
  spend_ids_of_new k db rows h n.1,
)

unreferenced_new :
    (k : ℕ) (db : Db) (rows : List DbTransaction)
    → InputsHaveTx db.presigned db.spend_inputs
    → All (IsNew k db) rows
    → exists
        (λ (r : DbTransaction).
          of_vault k r && exists (λ (i : DbSpendInput). i.unvault_id == r.id) db.spend_inputs)
        rows
      ≡ false
unfolding exists
unreferenced_new k db [] h n = refl
unreferenced_new k db (r ∷ rows) h n = ground (
  arith,
  unreferenced db.presigned db.spend_inputs r.id h n.0.2,
  unreferenced_new k db rows h n.1,
)

spend_ids_of-append :
    (k : ℕ) (xs ys : List DbTransaction) (inputs : List DbSpendInput)
    → spend_ids_of k (xs ++ ys) inputs ≡ spend_ids_of k xs inputs ++ spend_ids_of k ys inputs
unfolding spend_ids_of
spend_ids_of-append k [] ys inputs = refl
spend_ids_of-append k (x ∷ xs) ys inputs = ground (
  arith,
  spend_ids_of-append k xs ys inputs,
  append_assoc (map (λ (i : DbSpendInput). i.spend_id) (select (λ i. i.unvault_id == x.id) inputs))
      (spend_ids_of k xs inputs) (spend_ids_of k ys inputs),
)

delete_new :
    (k : ℕ) (db : Db) (rows : List DbTransaction)
    → All (IsNew k db) rows
    → delete (of_vault k) rows ≡ []
unfolding delete
delete_new k db [] n = refl
delete_new k db (r ∷ rows) n = ground (arith, delete_new k db rows n.1)

-- A vault that no Spend spends from is unconfirmed without an error.
pub unconfirm_lem :
    (k : ℕ) (db : Db)
    → spend_ids_of k db.presigned db.spend_inputs ≡ []
    → is_referenced k db ≡ false
    → db_unconfirm_deposit_dbtx k db ≡ ok (drop_presigned k db)
unfolding db_unconfirm_deposit_dbtx
unconfirm_lem k db e r = rw e (rw r refl)

-- Unconfirming a vault whose transactions are all new deletes these and nothing else.
unconfirm_new :
    (k : ℕ) (db : Db) (rows : List DbTransaction)
    → InputsHaveTx db.presigned db.spend_inputs
    → exists (of_vault k) db.presigned ≡ false
    → All (IsNew k db) rows
    → db_unconfirm_deposit_dbtx k (record db { presigned = db.presigned ++ rows })
      ≡ ok (record db { vaults = update (has_id k) (with_unconfirmed db.now) db.vaults })
unfolding is_referenced
unconfirm_new k db rows h bare new =
    unconfirm_lem k (record db { presigned = db.presigned ++ rows })
      (cc (
        spend_ids_of-append k db.presigned rows db.spend_inputs,
        spend_ids_of_bare k db.presigned db.spend_inputs bare,
        spend_ids_of_new k db rows h new,
      ))
      (ground (
        arith,
        exists-append
            (λ (r : DbTransaction).
              of_vault k r && exists (λ (i : DbSpendInput). i.unvault_id == r.id) db.spend_inputs)
            db.presigned rows,
        unreferenced_bare k db.presigned db.spend_inputs bare,
        unreferenced_new k db rows h new,
      ))
    ∙ cc (
      delete-append (of_vault k) db.presigned rows,
      delete_none (of_vault k) db.presigned bare,
      delete_new k db rows new,
      append-nil db.presigned,
    )

-- Confirming an unconfirmed deposit of a sound database and then unconfirming it gives the tables
-- back, but for the blockheight 0 and the time in the row of the vault: the transactions that were
-- stored are dropped, and no other.
pub db_unconfirm-db_confirm :
    (o : OutPoint) (height : ℕ) (u c : Psbt) (e f : Option Psbt) (db : Db) {db' : Db} {v : DbVault}
    → IsSound db
    → db_vault_by_deposit db o ≡ some v
    → v.status ≡ unconfirmed
    → db_confirm_deposit o height u c e f db ≡ ok db'
    → db_unconfirm_deposit_dbtx v.id db'
      ≡ ok (record db { vaults = update (has_id v.id) (with_unconfirmed db.now) db.vaults })
unfolding db_vault_by_deposit
db_unconfirm-db_confirm o height u c e f db {db'} {v} s found status h =
    ap (db_unconfirm_deposit_dbtx v.id) stores.stored
    ∙ unconfirm_new v.id db1 stores.rows s.inputs_have_tx bare stores.are_new
    ∙ ap (λ vs. ok (record db { vaults = vs }))
        (update-update (has_id v.id) (with_confirmation db.now height) (with_unconfirmed db.now)
          db.vaults (λ x. refl))
  where
    db1 : Db
    db1 = record db { vaults = update (has_id v.id) (with_confirmation db.now height) db.vaults }

    stores : Stores v.id db1 db'
    stores =
        store_all-Stores v.id u c e f db1
          (unfold db_confirm_deposit db_vault_by_deposit in (rw found at h))

    bare : exists (of_vault v.id) db.presigned ≡ false
    bare =
        All-pop
          (λ (x : DbVault). x.status ≡ unconfirmed → exists (of_vault x.id) db.presigned ≡ false)
          (select (at_deposit o) db.vaults)
          (All-select
            (λ (x : DbVault). x.status ≡ unconfirmed → exists (of_vault x.id) db.presigned ≡ false)
            (at_deposit o) db.vaults s.unconfirmed_are_bare)
          found status
