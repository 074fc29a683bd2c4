-- ===== src/Database/Presigned.antt =====
-- src/daemon/database/actions.rs: signatures are merged into a presigned transaction, and the status
-- of its vault follows. `is_finalizable` is that of revault_tx.
use mathlib.Core.List.{head?}
use revaultd.Prelude.{
  ℕ, Bool, not, ◌==◌, ◌&&◌, if◌then◌else◌, select, update, exists, ok, ok_or, ◌>>=◌,
}
use revaultd.Fault.{Res, database, transaction_not_found}
use revaultd.Status.{VaultStatus, secured, active}
use revaultd.Sigs.{SigMap, extend}
use revaultd.Database.Schema.{Psbt, type_eq, unvault, DbTransaction, Db}
use revaultd.Database.Interface.{has_id}
use revaultd.Database.Marks.{with_status}

abbrev pub has_tx_id : ℕ → DbTransaction → Bool
has_tx_id tx_db_id r = r.id == tx_db_id

-- `tx.psbt_mut().inputs[0].partial_sigs.extend(sigs)`
abbrev pub with_sigs : SigMap → Psbt → Psbt
with_sigs sigs tx = record tx { partial_sigs = extend tx.partial_sigs sigs }

module _ (is_finalizable : Psbt → Bool) where
  unfoldable pub revault_tx_merge_sigs : Psbt → SigMap → Bool × Psbt
  revault_tx_merge_sigs tx sigs = (is_finalizable (with_sigs sigs tx), with_sigs sigs tx)

-- `WHERE fullysigned = 0 AND type != (?1) AND vault_id = (?2)`
abbrev pub unsigned_revocation : ℕ → DbTransaction → Bool
unsigned_revocation vault_id r =
    not r.is_fully_signed && not (type_eq r.tx_type unvault) && r.vault_id == vault_id

abbrev pub with_psbt : Psbt → Bool → DbTransaction → DbTransaction
with_psbt tx fully_signed r = record r { psbt = tx; is_fully_signed = fully_signed }

abbrev pub set_status : ℕ → VaultStatus → Db → Db
set_status vault_id status db = record db {
  vaults = update (has_id vault_id) (with_status db.now status) db.vaults;
}

-- The two statements under `if fully_signed`.
unfoldable pub upgrade_status : ℕ → Bool → Db → Db
upgrade_status vault_id is_unvault db =
    let secured_db =
      if exists (unsigned_revocation vault_id) db.presigned
      then db
      else set_status vault_id secured db in
    if is_unvault then set_status vault_id active secured_db else secured_db

module _ (is_finalizable : Psbt → Bool) where
  unfoldable pub db_update_presigned_tx : ℕ → ℕ → SigMap → Db → Res Db
  unfolding revault_tx_merge_sigs upgrade_status
  db_update_presigned_tx vault_id tx_db_id sigs db = do
    presigned_tx ←
        ok_or (database transaction_not_found) (head? (select (has_tx_id tx_db_id) db.presigned))
    let is_unvault = type_eq presigned_tx.tx_type unvault
    let (fully_signed, psbt) = revault_tx_merge_sigs is_finalizable presigned_tx.psbt sigs
    let db1 = record db {
      presigned = update (has_tx_id tx_db_id) (with_psbt psbt fully_signed) db.presigned;
    }
    ok (if fully_signed then upgrade_status vault_id is_unvault db1 else db1)
