-- ===== src/Database/Marks.antt =====
-- src/daemon/database/actions.rs: the statements that write the tip, the deposit index and the
-- status of a vault.
use revaultd.Prelude.{ℕ, Bool, true, some, List, ◌==◌, ◌&&◌, update, exists}
use revaultd.Status.{
  VaultStatus, status_eq, funded, securing, secured, activating, unvaulting, unvaulted, canceling,
  canceled, emergency_vaulting, emergency_vaulted, unvault_emergency_vaulting,
  unvault_emergency_vaulted, spending, spent,
}
use revaultd.Database.Schema.{Txid, BlockchainTip, DbWallet, DbVault, DbTransaction, TipRow, Db}
use revaultd.Database.Interface.{has_id}

-- `UPDATE tip SET blockheight = (?1), blockhash = (?2)`
unfoldable pub db_update_tip_dbtx : BlockchainTip → Db → Db
db_update_tip_dbtx tip db = record db {
  tips = update (λ _. true) (λ (r : TipRow). record r { tip = tip }) db.tips;
}

unfoldable pub db_update_tip : BlockchainTip → Db → Db
unfolding db_update_tip_dbtx
db_update_tip tip db = db_update_tip_dbtx tip db

unfoldable pub db_update_deposit_index : ℕ → Db → Db
db_update_deposit_index new_index db = record db {
  wallets =
      update (λ _. true) (λ (w : DbWallet). record w { deposit_derivation_index = new_index })
        db.wallets;
}

-- `SET status = (?1), updated_at = strftime('%s','now')`
abbrev pub with_status : ℕ → VaultStatus → DbVault → DbVault
with_status now status v = record v { status = status; updated_at = now }

unfoldable pub dbtx_downgrade : ℕ → VaultStatus → Db → Db
dbtx_downgrade vault_id status db = record db {
  vaults = update (has_id vault_id) (with_status db.now status) db.vaults;
}

unfoldable pub db_unconfirm_unvault_dbtx : ℕ → Db → Db
unfolding dbtx_downgrade
db_unconfirm_unvault_dbtx vault_id db = dbtx_downgrade vault_id unvaulting db

unfoldable pub db_unconfirm_spend_dbtx : ℕ → Db → Db
unfolding dbtx_downgrade
db_unconfirm_spend_dbtx vault_id db = dbtx_downgrade vault_id spending db

unfoldable pub db_unconfirm_cancel_dbtx : ℕ → Db → Db
unfolding dbtx_downgrade
db_unconfirm_cancel_dbtx vault_id db = dbtx_downgrade vault_id canceling db

unfoldable pub db_unconfirm_emer_dbtx : ℕ → Db → Db
unfolding dbtx_downgrade
db_unconfirm_emer_dbtx vault_id db = dbtx_downgrade vault_id emergency_vaulting db

unfoldable pub db_unconfirm_unemer_dbtx : ℕ → Db → Db
unfolding dbtx_downgrade
db_unconfirm_unemer_dbtx vault_id db = dbtx_downgrade vault_id unvault_emergency_vaulting db

-- `vaults.id IN (SELECT vault_id FROM presigned_transactions WHERE txid = (?2))`
unfoldable pub has_tx : List DbTransaction → Txid → DbVault → Bool
has_tx rows txid v = exists (λ (r : DbTransaction). r.psbt.txid == txid && r.vault_id == v.id) rows

unfoldable pub db_status_from_unvault_txid : Txid → VaultStatus → Db → Db
db_status_from_unvault_txid unvault_txid status db = record db {
  vaults = update (has_tx db.presigned unvault_txid) (with_status db.now status) db.vaults;
}

unfoldable pub db_unvault_deposit : Txid → Db → Db
unfolding db_status_from_unvault_txid
db_unvault_deposit unvault_txid db = db_status_from_unvault_txid unvault_txid unvaulting db

unfoldable pub db_confirm_unvault : Txid → Db → Db
unfolding db_status_from_unvault_txid
db_confirm_unvault unvault_txid db = db_status_from_unvault_txid unvault_txid unvaulted db

unfoldable pub db_cancel_unvault : Txid → Db → Db
unfolding db_status_from_unvault_txid
db_cancel_unvault unvault_txid db = db_status_from_unvault_txid unvault_txid canceling db

abbrev pub with_spend : ℕ → Txid → DbVault → DbVault
with_spend now spend_txid v = record v {
  status = spending;
  updated_at = now;
  spend_txid = some spend_txid;
}

unfoldable pub db_spend_unvault : Txid → Txid → Db → Db
db_spend_unvault unvault_txid spend_txid db = record db {
  vaults = update (has_tx db.presigned unvault_txid) (with_spend db.now spend_txid) db.vaults;
}

unfoldable pub db_emer_unvault : Txid → Db → Db
unfolding db_status_from_unvault_txid
db_emer_unvault unvault_txid db =
    db_status_from_unvault_txid unvault_txid unvault_emergency_vaulting db

unfoldable pub db_mark_vault_as : ℕ → VaultStatus → Db → Db
db_mark_vault_as vault_id status db = record db {
  vaults = update (has_id vault_id) (with_status db.now status) db.vaults;
}

unfoldable pub db_mark_spent_unvault : ℕ → Db → Db
unfolding db_mark_vault_as
db_mark_spent_unvault vault_id db = db_mark_vault_as vault_id spent db

unfoldable pub db_mark_canceled_unvault : ℕ → Db → Db
unfolding db_mark_vault_as
db_mark_canceled_unvault vault_id db = db_mark_vault_as vault_id canceled db

unfoldable pub db_mark_emergencied_unvault : ℕ → Db → Db
unfolding db_mark_vault_as
db_mark_emergencied_unvault vault_id db = db_mark_vault_as vault_id unvault_emergency_vaulted db

unfoldable pub db_mark_emergencying_vault : ℕ → Db → Db
unfolding db_mark_vault_as
db_mark_emergencying_vault vault_id db = db_mark_vault_as vault_id emergency_vaulting db

unfoldable pub db_mark_emergencied_vault : ℕ → Db → Db
unfolding db_mark_vault_as
db_mark_emergencied_vault vault_id db = db_mark_vault_as vault_id emergency_vaulted db

-- Only a vault that is still 'funded' is marked.
unfoldable pub db_mark_securing_vault : ℕ → Db → Db
db_mark_securing_vault vault_id db = record db {
  vaults =
      update (λ v. has_id vault_id v && status_eq v.status funded) (with_status db.now securing)
        db.vaults;
}

-- Only a vault that is still 'secured' is marked.
unfoldable pub db_mark_activating_vault : ℕ → Db → Db
db_mark_activating_vault vault_id db = record db {
  vaults =
      update (λ v. has_id vault_id v && status_eq v.status secured) (with_status db.now activating)
        db.vaults;
}
