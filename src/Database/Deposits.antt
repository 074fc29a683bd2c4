-- ===== src/Database/Deposits.antt =====
-- src/daemon/database/actions.rs: a deposit is inserted, confirmed and unconfirmed.
pub mod Store
pub mod RoundTrip
pub mod Reorged
use mathlib.Core.List.{head?}
use revaultd.Prelude.{
  ℕ, zero, suc, max, Bool, true, false, not, Option, none, some, List, [], ◌∷◌, ◌++◌, map, ◌==◌,
  ◌&&◌, ◌||◌, leb, ltb, ◌-◌, ◌^◌, if◌then◌else◌, select, update, delete, exists, every, ok, err,
  ok_or, guard, ◌>>=◌, ◌>>◌,
}
use revaultd.Fault.{Res, database, panic, constraint_failed, confirming_unknown_deposit}
use revaultd.Status.{VaultStatus, unconfirmed, funded}
use revaultd.Sigs.{SigMap}
use revaultd.Database.Schema.{
  Txid, OutPoint, Psbt, TransactionType, unvault, cancel, emergency, unvault_emergency, DbVault,
  DbTransaction, DbSpendInput, DbSpendTransaction, Db, DbWallet,
}
use revaultd.Database.Interface.{has_id, db_vault_by_deposit}

-- The id that SQLite gives to a new row of a table with an `INTEGER PRIMARY KEY`: one more than the
-- largest.
unfoldable pub next_id : List ℕ → ℕ
next_id [] = 1
next_id (i ∷ is) = max (suc i) (next_id is)

-- `timestamp_to_u32`, which panics past the year 2106.
unfoldable pub timestamp_to_u32 : ℕ → Res ℕ
timestamp_to_u32 n = if ltb n (2 ^ 32) then ok n else err panic

-- `amount_to_i64`, which stops the process on an amount that SQLite cannot hold.
unfoldable pub amount_to_i64 : ℕ → Res ℕ
amount_to_i64 amount = if ltb (2 ^ 63 - 1) amount then err panic else ok amount

abbrev pub vault_ids : Db → List ℕ
vault_ids db = map (λ (v : DbVault). v.id) db.vaults

abbrev pub presigned_ids : Db → List ℕ
presigned_ids db = map (λ (r : DbTransaction). r.id) db.presigned

-- The foreign key `wallet_id` is checked by the statement.
unfoldable pub db_insert_new_unconfirmed_vault : ℕ → OutPoint → ℕ → ℕ → ℕ → Db → Res Db
unfolding next_id amount_to_i64
db_insert_new_unconfirmed_vault wallet_id deposit_outpoint amount derivation_index received_at db =
    do
      sats ← amount_to_i64 amount
      guard (database constraint_failed) (exists (λ (w : DbWallet). w.id == wallet_id) db.wallets)
      ok (record db {
        vaults =
            db.vaults
            ++ record {
              id = next_id (vault_ids db);
              wallet_id = wallet_id;
              status = unconfirmed;
              blockheight = 0;
              deposit_outpoint = deposit_outpoint;
              amount = sats;
              derivation_index = derivation_index;
              received_at = received_at;
              updated_at = received_at;
              spend_txid = none;
            }
              ∷ [];
      })

abbrev pub no_sigs : SigMap → Bool
no_sigs [] = true
no_sigs (_ ∷ _) = false

-- One round of `db_store_unsigned_transactions!`: the assertions, then the insertion, which the
-- UNIQUE columns and the foreign key may refuse.
unfoldable pub store_unsigned : ℕ → TransactionType → Psbt → Db → Res Db
unfolding next_id
store_unsigned vault_id tx_type tx db = do
  guard panic (tx.inputs == 1)
  guard panic (no_sigs tx.partial_sigs)
  guard (database constraint_failed) (exists (has_id vault_id) db.vaults)
  guard (database constraint_failed)
      (not (exists (λ (r : DbTransaction). r.psbt.txid == tx.txid) db.presigned))
  ok (record db {
    presigned =
        db.presigned
        ++ record {
          id = next_id (presigned_ids db);
          vault_id = vault_id;
          tx_type = tx_type;
          psbt = tx;
          is_fully_signed = false;
        }
          ∷ [];
  })

abbrev pub with_confirmation : ℕ → ℕ → DbVault → DbVault
with_confirmation now blockheight v = record v {
  status = funded;
  blockheight = blockheight;
  updated_at = now;
}

-- `match (emer_tx, unemer_tx)`
unfoldable pub store_all : ℕ → Psbt → Psbt → Option Psbt → Option Psbt → Db → Res Db
unfolding store_unsigned
store_all vault_id unvault_tx cancel_tx (some emer_tx) (some unemer_tx) db = do
  db ← store_unsigned vault_id unvault unvault_tx db
  db ← store_unsigned vault_id cancel cancel_tx db
  db ← store_unsigned vault_id emergency emer_tx db
  store_unsigned vault_id unvault_emergency unemer_tx db
store_all vault_id unvault_tx cancel_tx none none db = do
  db ← store_unsigned vault_id unvault unvault_tx db
  store_unsigned vault_id cancel cancel_tx db
store_all vault_id unvault_tx cancel_tx _ _ db = err panic

unfoldable pub db_confirm_deposit :
    OutPoint → ℕ → Psbt → Psbt → Option Psbt → Option Psbt → Db → Res Db
unfolding store_all
db_confirm_deposit outpoint blockheight unvault_tx cancel_tx emer_tx unemer_tx db = do
  vault ← ok_or (database confirming_unknown_deposit) (db_vault_by_deposit db outpoint)
  store_all vault.id unvault_tx cancel_tx emer_tx unemer_tx (record db {
    vaults = update (has_id vault.id) (with_confirmation db.now blockheight) db.vaults;
  })

-- The Spends that have one of the vault's transactions for an input:
-- `SELECT sin.spend_id FROM presigned_transactions as ptx
--  INNER JOIN spend_inputs as sin ON ptx.id = sin.unvault_id WHERE ptx.vault_id = (?1)`
unfoldable pub spend_ids_of : ℕ → List DbTransaction → List DbSpendInput → List ℕ
spend_ids_of vault_id [] inputs = []
spend_ids_of vault_id (r ∷ rs) inputs =
    let rest = spend_ids_of vault_id rs inputs in
    if r.vault_id == vault_id
    then map (λ (i : DbSpendInput). i.spend_id) (select (λ i. i.unvault_id == r.id) inputs) ++ rest
    else rest

-- `DELETE FROM spend_transactions WHERE id = (subquery)`: a subquery that stands for a value is its
-- first row, and none is NULL, which equals nothing. The deletion cascades to the inputs.
unfoldable pub delete_spend_of : Option ℕ → Db → Db
delete_spend_of none db = db
delete_spend_of (some spend_id) db = record db {
  spends = delete (λ (s : DbSpendTransaction). s.id == spend_id) db.spends;
  spend_inputs = delete (λ (i : DbSpendInput). i.spend_id == spend_id) db.spend_inputs;
}

abbrev pub of_vault : ℕ → DbTransaction → Bool
of_vault vault_id r = r.vault_id == vault_id

-- An input refers to one of the vault's transactions, so `ON DELETE RESTRICT` keeps these.
unfoldable pub is_referenced : ℕ → Db → Bool
is_referenced vault_id db =
    exists
      (λ (r : DbTransaction).
        of_vault vault_id r && exists (λ (i : DbSpendInput). i.unvault_id == r.id) db.spend_inputs)
      db.presigned

abbrev pub with_unconfirmed : ℕ → DbVault → DbVault
with_unconfirmed now v = record v { status = unconfirmed; blockheight = 0; updated_at = now }

abbrev pub drop_presigned : ℕ → Db → Db
drop_presigned vault_id db = record db {
  presigned = delete (of_vault vault_id) db.presigned;
  vaults = update (has_id vault_id) (with_unconfirmed db.now) db.vaults;
}

unfoldable pub db_unconfirm_deposit_dbtx : ℕ → Db → Res Db
unfolding spend_ids_of delete_spend_of is_referenced
db_unconfirm_deposit_dbtx vault_id db = do
  let db1 = delete_spend_of (head? (spend_ids_of vault_id db.presigned db.spend_inputs)) db
  guard (database constraint_failed) (not (is_referenced vault_id db1))
  ok (drop_presigned vault_id db1)
