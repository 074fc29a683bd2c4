-- ===== src/Api/Spend/Vet.antt =====
-- src/daemon/jsonrpc/api.rs: the parts of `setspendtx` that only read.
use revaultd.Prelude.{
  not, List, [], ◌∷◌, map, length, ltb, Result, ok, ok_or, guard, map_err, ◌>>=◌, ◌>>◌,
}
use revaultd.Fault.{revault_tx}
use revaultd.Database.Schema.{Txid, OutPoint, Psbt, DbVault, DbSpendTransaction, Db}
use revaultd.Database.Interface.{db_unvault_transaction}
use revaultd.Database.Spends.{db_spend_transaction}
use revaultd.Database.Queries.{get_at, db_vaults_from_spend}
use revaultd.Control.Signatures.{Secp, check_spend_signatures}
use revaultd.Control.Session.{
  unknown_spend, already_spent_vault, spend_too_large, invalid_spend_signature, internal, Refusal,
  from_fault, from_sig_error, Daemon,
}
use revaultd.Control.Keys.{managers_xpubs, managers_threshold}
use revaultd.Control.Coordinator.{Txs, check_spend_transaction_size}
use revaultd.Api.Role.{UserRole, manager_only}

-- `map(|db_vault| …).collect()`: the final Unvault transactions of the vaults.
unfoldable pub final_unvaults : Txs → Db → List (Txid × DbVault) → Result Refusal (List Psbt)
final_unvaults txs db [] = ok []
final_unvaults txs db ((_, db_vault) ∷ vaults) = do
  row ← map_err from_fault (db_unvault_transaction db db_vault.id)
  final ← ok_or (internal revault_tx) (txs.finalize row.psbt)
  finals ← final_unvaults txs db vaults
  ok (final ∷ finals)

abbrev pub outpoints_of : List (Txid × DbVault) → List OutPoint
outpoints_of vaults = map (λ (entry : Txid × DbVault). entry.1.deposit_outpoint) vaults

-- The Spend and the vaults that it spends, if all may proceed without the servers.
unfoldable pub spend_checks :
    Secp
    → Daemon
    → Txs
    → UserRole
    → Txid
    → Db
    → Result Refusal (DbSpendTransaction × List (Txid × DbVault))
unfolding manager_only db_spend_transaction db_vaults_from_spend check_spend_signatures
    managers_threshold managers_xpubs check_spend_transaction_size
spend_checks secp daemon txs role spend_txid db = do
  manager_only role
  spend_tx ← ok_or unknown_spend (db_spend_transaction db spend_txid)
  guard already_spent_vault
      (not (ltb (length (db_vaults_from_spend db spend_txid)) (length spend_tx.psbt.unvault_txids)))
  map_err (from_sig_error invalid_spend_signature) (
      check_spend_signatures secp (managers_threshold daemon) spend_tx.psbt (managers_xpubs daemon)
        (get_at (db_vaults_from_spend db spend_txid)))
  guard spend_too_large (check_spend_transaction_size txs spend_tx.psbt)
  ok (spend_tx, db_vaults_from_spend db spend_txid)
