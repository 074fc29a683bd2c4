-- ===== src/Api/Broadcast.antt =====
-- src/daemon/jsonrpc/api.rs: `revault` and `emergency`, which have bitcoind broadcast transactions
-- that are signed already.
pub mod Guarded
pub mod Emergency
use revaultd.Prelude.{
  Bool, true, false, List, [], ◌∷◌, Option, none, some, Result, ok, err, ok_or, guard, map_err,
}
use revaultd.Prelude.Stateful.{◌>>=◌, ◌>>◌, lift}
use revaultd.Fault.{revault_tx}
use revaultd.Status.{VaultStatus, unvaulting, unvaulted, spending}
use revaultd.Database.Schema.{OutPoint, Psbt, DbVault, Db}
use revaultd.Database.Interface.{db_vault_by_deposit, db_cancel_transaction}
use revaultd.Control.Signatures.{Secp}
use revaultd.Control.Session.{
  unknown_outpoint, invalid_status, internal, aborted, from_fault, Refusal, Net, Command, get_db,
  present, require,
}
use revaultd.Control.Coordinator.{Txs, bitcoind_broadcast}
use revaultd.Control.Vaults.{finalized_emer_txs}
use revaultd.Api.Role.{UserRole, stakeholder_only}

abbrev pub is_revaultable : VaultStatus → Bool
is_revaultable unvaulting = true
is_revaultable unvaulted = true
is_revaultable spending = true
is_revaultable _ = false

module _ (secp : Secp) (servers : Net) (txs : Txs) where
  unfoldable pub revault : OutPoint → Command (Unit {0})
  unfolding bitcoind_broadcast
  revault deposit_outpoint = do
    db ← get_db
    vault ← present (unknown_outpoint deposit_outpoint) (db_vault_by_deposit db deposit_outpoint)
    require (invalid_status vault.status unvaulting) (is_revaultable vault.status)
    cancel ← present aborted (db_cancel_transaction db vault.id)
    final ← present (internal revault_tx) (txs.finalize cancel.psbt)
    bitcoind_broadcast secp servers (final ∷ [])

  unfoldable pub emergency : UserRole → Command (Unit {0})
  unfolding stakeholder_only finalized_emer_txs bitcoind_broadcast
  emergency role = do
    lift (stakeholder_only role)
    db ← get_db
    emers ← lift (map_err from_fault (finalized_emer_txs txs db))
    bitcoind_broadcast secp servers emers
