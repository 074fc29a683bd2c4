-- ===== src/Api/Presigned/Commands.antt =====
-- src/daemon/jsonrpc/api.rs: `revocationtxs` and `unvaulttx`.
use revaultd.Prelude.{Bool, ok}
use revaultd.Prelude.Stateful.{◌>>=◌, ◌>>◌, lift}
use revaultd.Sigs.{SigMap}
use revaultd.Database.Schema.{OutPoint, Psbt, DbVault, DbTransaction}
use revaultd.Database.Presigned.{db_update_presigned_tx}
use revaultd.Database.Marks.{db_mark_securing_vault, db_mark_activating_vault}
use revaultd.Control.Signatures.{Secp}
use revaultd.Control.Session.{Net, Daemon, Command, get_db, exec}
use revaultd.Control.Coordinator.{share_rev_signatures, share_unvault_signatures}
use revaultd.Api.Role.{UserRole}
use revaultd.Api.Presigned.Checks.{RevocationTxs, RevocationRows, revocation_checks, unvault_checks}

abbrev pub with_own : Psbt → Psbt × SigMap
with_own tx = (tx, tx.partial_sigs)

module _ (secp : Secp) (is_finalizable : Psbt → Bool) (servers : Net) (daemon : Daemon) where
  -- The three updates of the database, each its own transaction.
  unfoldable pub store_revocations : RevocationTxs → DbVault × RevocationRows → Command (Unit {0})
  unfolding db_update_presigned_tx
  store_revocations txs (db_vault, rows) = do
    exec (
        db_update_presigned_tx is_finalizable db_vault.id rows.cancel_row.id
          txs.cancel_tx.partial_sigs)
    exec (
        db_update_presigned_tx is_finalizable db_vault.id rows.emer_row.id
          txs.emergency_tx.partial_sigs)
    exec (
        db_update_presigned_tx is_finalizable db_vault.id rows.unemer_row.id
          txs.unvault_emergency_tx.partial_sigs)

  -- What `revocationtxs` does after the checks.
  unfoldable pub store_and_share : RevocationTxs → DbVault × RevocationRows → Command (Unit {0})
  unfolding share_rev_signatures store_revocations db_mark_securing_vault
  store_and_share txs checked = do
    store_revocations txs checked
    share_rev_signatures secp servers daemon (with_own txs.cancel_tx) (with_own txs.emergency_tx)
        (with_own txs.unvault_emergency_tx)
    exec (λ db. ok (db_mark_securing_vault checked.0.id db))

  unfoldable pub revocationtxs : UserRole → OutPoint → RevocationTxs → Command (Unit {0})
  unfolding revocation_checks store_and_share
  revocationtxs role outpoint txs = do
    db ← get_db
    checked ← lift (revocation_checks secp daemon role outpoint txs db)
    store_and_share txs checked

  -- What `unvaulttx` does after the checks.
  unfoldable pub store_and_share_unvault : Psbt → DbVault × DbTransaction → Command (Unit {0})
  unfolding share_unvault_signatures db_update_presigned_tx db_mark_activating_vault
  store_and_share_unvault unvault_tx (db_vault, row) = do
    exec (db_update_presigned_tx is_finalizable db_vault.id row.id unvault_tx.partial_sigs)
    share_unvault_signatures secp servers daemon unvault_tx
    exec (λ db. ok (db_mark_activating_vault db_vault.id db))

  unfoldable pub unvaulttx : UserRole → OutPoint → Psbt → Command (Unit {0})
  unfolding unvault_checks store_and_share_unvault
  unvaulttx role outpoint unvault_tx = do
    db ← get_db
    checked ← lift (unvault_checks secp daemon role outpoint unvault_tx db)
    store_and_share_unvault unvault_tx checked
