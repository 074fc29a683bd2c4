-- ===== src/Api/Spend/Store.antt =====
-- src/daemon/jsonrpc/api.rs: `updatespendtx`, `delspendtx` and `listspendtxs`.
pub mod Active
use revaultd.Prelude.{
  ℕ, suc, max, Bool, true, false, Option, none, some, List, [], ◌∷◌, ◌==◌, map, Result, ok, err,
  ok_or, guard, ◌>>=◌, ◌>>◌, exists, if◌then◌else◌,
}
use revaultd.Prelude.Stateful.{lift, after}
use revaultd.Fault.{Res}
use revaultd.Status.{active, status_eq}
use revaultd.Database.Schema.{
  Txid, OutPoint, Psbt, SpendPsbt, DbVault, DbTransaction, DbSpendTransaction, Db,
}
use revaultd.Database.Interface.{db_vault_by_unvault_txid}
use revaultd.Database.Spends.{
  db_insert_spend, db_update_spend, db_delete_spend, db_spend_transaction,
}
use revaultd.Control.Session.{Refusal, unknown_unvault, invalid_status, Session, Command, exec}
use revaultd.Api.Role.{UserRole, manager_only}

-- `for txin in spend_inputs.iter()`: the Unvaults that the Spend spends.
unfoldable pub spent_unvaults : Db → List Txid → Result Refusal (List DbTransaction)
spent_unvaults db [] = ok []
spent_unvaults db (txid ∷ txids) = do
  found ← ok_or (unknown_unvault txid) (db_vault_by_unvault_txid db txid)
  guard (invalid_status found.0.status active) (status_eq found.0.status active)
  db_unvaults ← spent_unvaults db txids
  ok (found.1 ∷ db_unvaults)

-- `if db_spend_transaction(…).is_some()`
unfoldable pub store_spend : SpendPsbt → List DbTransaction → Db → Res Db
unfolding db_spend_transaction
store_spend spend_tx db_unvaults db = elim (db_spend_transaction db spend_tx.txid) [
  | some _ ↦ ok (db_update_spend spend_tx db)
  | none ↦ db_insert_spend db_unvaults spend_tx db
]

-- What is refused before the Spend is stored.
unfoldable pub update_checks : UserRole → SpendPsbt → Db → Result Refusal (List DbTransaction)
unfolding manager_only spent_unvaults
update_checks role spend_tx db = do manager_only role; spent_unvaults db spend_tx.unvault_txids

unfoldable pub updatespendtx : UserRole → SpendPsbt → Command (Unit {0})
unfolding update_checks store_spend
updatespendtx role spend_tx s =
    after (update_checks role spend_tx s.db, s)
      (λ db_unvaults. exec (store_spend spend_tx db_unvaults))

unfoldable pub delspendtx : UserRole → Txid → Command (Unit {0})
unfolding manager_only db_delete_spend
delspendtx role spend_txid s =
    after (manager_only role, s) (λ _. exec (λ db. ok (db_delete_spend spend_txid db)))
