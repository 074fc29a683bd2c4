-- ===== src/Api/Spend/Set.antt =====
-- src/daemon/jsonrpc/api.rs: `setspendtx`, which has the cosigning servers sign a Spend, announces it
-- and broadcasts the Unvaults. It is the release build, without the `debug_assertions` block.
pub mod Announced
pub mod Ordered
use revaultd.Prelude.{
  ℕ, Bool, not, Option, none, some, List, [], ◌∷◌, map, length, ltb, Result, ok, err, ok_or, guard,
  map_err,
}
use revaultd.Prelude.Stateful.{◌>>=◌, ◌>>◌, lift, return}
use revaultd.Fault.{Fault, revault_tx}
use revaultd.Database.Schema.{Txid, OutPoint, Psbt, SpendPsbt, DbVault, DbSpendTransaction, Db}
use revaultd.Database.Interface.{db_unvault_transaction}
use revaultd.Database.Spends.{db_spend_transaction, db_update_spend, db_mark_broadcastable_spend}
use revaultd.Database.Queries.{get_at, db_vaults_from_spend}
use revaultd.Control.Signatures.{Secp, check_spend_signatures}
use revaultd.Control.Session.{
  unknown_spend, already_spent_vault, spend_too_large, invalid_cosigners, invalid_spend_signature,
  internal, Refusal, aborted, from_fault, from_sig_error, Net, Daemon, Command, get_db, exec,
  present, require,
}
use revaultd.Control.Keys.{managers_xpubs, managers_threshold}
use revaultd.Control.Coordinator.{
  Txs, fetch_cosigs_signatures, announce_spend_transaction, bitcoind_broadcast,
  check_spend_transaction_size,
}
use revaultd.Api.Role.{UserRole}
use revaultd.Api.Spend.Vet.{final_unvaults, outpoints_of, spend_checks}

module _ (secp : Secp) (servers : Net) (daemon : Daemon) (txs : Txs) where
  -- The signed Spend and its final version.
  unfoldable pub cosign : SpendPsbt → Command (SpendPsbt × SpendPsbt)
  unfolding fetch_cosigs_signatures
  cosign psbt = do
    cosigs ← present aborted daemon.cosigs
    signed ← fetch_cosigs_signatures secp servers txs psbt cosigs
    finalized_spend ← present invalid_cosigners (txs.finalize_spend signed)
    return (signed, finalized_spend)

  unfoldable pub broadcast_unvaults : Txid → List (Txid × DbVault) → Command (Unit {0})
  unfolding final_unvaults bitcoind_broadcast db_mark_broadcastable_spend
  broadcast_unvaults spend_txid spent_vaults = do
    db ← get_db
    bitcoin_txs ← lift (final_unvaults txs db spent_vaults)
    bitcoind_broadcast secp servers bitcoin_txs
    exec (λ db. ok (db_mark_broadcastable_spend spend_txid db))

  unfoldable pub announce_and_broadcast :
      Txid → List (Txid × DbVault) → SpendPsbt × SpendPsbt → Command (Unit {0})
  unfolding announce_spend_transaction db_update_spend broadcast_unvaults
  announce_and_broadcast spend_txid spent_vaults (signed, finalized_spend) = do
    announce_spend_transaction secp servers daemon finalized_spend (outpoints_of spent_vaults)
    exec (λ db. ok (db_update_spend signed db))
    broadcast_unvaults spend_txid spent_vaults

  unfoldable pub setspendtx : UserRole → Txid → Command (Unit {0})
  unfolding spend_checks cosign announce_and_broadcast
  setspendtx role spend_txid = do
    db ← get_db
    checked ← lift (spend_checks secp daemon txs role spend_txid db)
    spends ← cosign checked.0.psbt
    announce_and_broadcast spend_txid checked.1 spends
