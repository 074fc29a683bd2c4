-- ===== src/Database/Interface.antt =====
-- src/daemon/database/interface.rs: the queries. An answer has its rows in the order of the table,
-- and a join runs through its first table first.
use revaultd.Prelude.{
  ℕ, Bool, not, Option, List, [], ◌∷◌, ◌++◌, map, ◌==◌, ◌&&◌, ◌||◌, leb, select, pop, ok_or,
}
use mathlib.Core.Option
use revaultd.Fault.{Res, database, no_tip_row, no_wallet_row, no_version_row, no_unvault_tx}
use revaultd.Status.{
  VaultStatus, as_u32, status_eq, active, unvaulting, unvaulted, canceling, emergency_vaulting,
  unvault_emergency_vaulting, spending,
}
use revaultd.Database.Schema.{
  Txid, OutPoint, outpoint_eq, Psbt, BlockchainTip, TransactionType, type_eq, unvault, cancel,
  emergency, unvault_emergency, DbWallet, DbVault, DbTransaction, TipRow, Db,
}

unfoldable pub db_version : Db → Res ℕ
db_version db = ok_or (database no_version_row) (pop db.version)

unfoldable pub db_tip : Db → Res BlockchainTip
db_tip db = ok_or (database no_tip_row) (Option.map (λ (r : TipRow). r.tip) (pop db.tips))

unfoldable pub db_network : Db → Res ℕ
db_network db = ok_or (database no_tip_row) (Option.map (λ (r : TipRow). r.network) (pop db.tips))

unfoldable pub db_wallet : Db → Res DbWallet
db_wallet db = ok_or (database no_wallet_row) (pop db.wallets)

abbrev pub has_id : ℕ → DbVault → Bool
has_id vault_id v = v.id == vault_id

abbrev pub at_deposit : OutPoint → DbVault → Bool
at_deposit o v = outpoint_eq v.deposit_outpoint o

unfoldable pub db_vault : Db → ℕ → Option DbVault
db_vault db vault_id = pop (select (has_id vault_id) db.vaults)

unfoldable pub db_vault_by_deposit : Db → OutPoint → Option DbVault
db_vault_by_deposit db deposit = pop (select (at_deposit deposit) db.vaults)

-- The vaults that did not move onchain yet. (`ORDER BY updated_at` is left out.)
unfoldable pub db_deposits : Db → List DbVault
db_deposits db = select (λ v. leb (as_u32 v.status) (as_u32 active)) db.vaults

unfoldable pub db_vaults_min_status : Db → VaultStatus → List DbVault
db_vaults_min_status db status = select (λ v. leb (as_u32 status) (as_u32 v.status)) db.vaults

abbrev pub is_tx : ℕ → TransactionType → DbTransaction → Bool
is_tx vault_id t r = r.vault_id == vault_id && type_eq r.tx_type t

-- `SELECT * FROM presigned_transactions WHERE vault_id = (?1) AND type = (?2)`, then `pop()`: the
-- common body of the queries for one presigned transaction of a vault.
unfoldable pub presigned_tx : Db → ℕ → TransactionType → Option DbTransaction
presigned_tx db vault_id t = pop (select (is_tx vault_id t) db.presigned)

unfoldable pub db_unvault_transaction : Db → ℕ → Res DbTransaction
unfolding presigned_tx
db_unvault_transaction db vault_id =
    ok_or (database no_unvault_tx) (presigned_tx db vault_id unvault)

unfoldable pub db_unvault_dbtx : Db → ℕ → Option Psbt
unfolding presigned_tx
db_unvault_dbtx db vault_id =
    Option.map (λ (r : DbTransaction). r.psbt) (presigned_tx db vault_id unvault)

unfoldable pub db_cancel_transaction : Db → ℕ → Option DbTransaction
unfolding presigned_tx
db_cancel_transaction db vault_id = presigned_tx db vault_id cancel

unfoldable pub db_emer_transaction : Db → ℕ → Option DbTransaction
unfolding presigned_tx
db_emer_transaction db vault_id = presigned_tx db vault_id emergency

unfoldable pub db_unvault_emer_transaction : Db → ℕ → Option DbTransaction
unfolding presigned_tx
db_unvault_emer_transaction db vault_id = presigned_tx db vault_id unvault_emergency

-- `FROM vaults INNER JOIN presigned_transactions as ptx ON ptx.vault_id = vaults.id`, kept where
-- the test holds of both rows.
unfoldable pub join_txs :
    (DbVault → DbTransaction → Bool)
    → List DbVault
    → List DbTransaction
    → List (DbVault × DbTransaction)
join_txs p [] rows = []
join_txs p (v ∷ vs) rows =
    map (λ r. (v, r)) (select (λ r. r.vault_id == v.id && p v r) rows) ++ join_txs p vs rows

abbrev pub of_kind : VaultStatus → TransactionType → DbVault → DbTransaction → Bool
of_kind s t v r = status_eq v.status s && type_eq r.tx_type t

unfoldable pub db_unvaulted_vaults : Db → List (DbVault × DbTransaction)
unfolding join_txs
db_unvaulted_vaults db =
    join_txs
      (λ v r.
        type_eq r.tx_type unvault
        && (status_eq v.status unvaulted || status_eq v.status unvaulting))
      db.vaults db.presigned

unfoldable pub db_spending_vaults : Db → List (DbVault × DbTransaction)
unfolding join_txs
db_spending_vaults db = join_txs (of_kind spending unvault) db.vaults db.presigned

unfoldable pub db_canceling_vaults : Db → List (DbVault × DbTransaction)
unfolding join_txs
db_canceling_vaults db = join_txs (of_kind canceling cancel) db.vaults db.presigned

unfoldable pub db_emering_vaults : Db → List (DbVault × DbTransaction)
unfolding join_txs
db_emering_vaults db = join_txs (of_kind emergency_vaulting emergency) db.vaults db.presigned

unfoldable pub db_unemering_vaults : Db → List (DbVault × DbTransaction)
unfolding join_txs
db_unemering_vaults db =
    join_txs (of_kind unvault_emergency_vaulting unvault_emergency) db.vaults db.presigned

unfoldable pub db_unvault_from_deposit : Db → OutPoint → Option Psbt
unfolding join_txs
db_unvault_from_deposit db deposit =
    Option.map (λ (p : DbVault × DbTransaction). p.1.psbt)
      (pop (
        join_txs (λ v r. at_deposit deposit v && type_eq r.tx_type unvault) db.vaults db.presigned))

unfoldable pub db_vault_by_unvault_txid : Db → Txid → Option (DbVault × DbTransaction)
unfolding join_txs
db_vault_by_unvault_txid db txid =
    pop (join_txs (λ v r. r.psbt.txid == txid && type_eq r.tx_type unvault) db.vaults db.presigned)

unfoldable pub db_transactions_sig_missing : Db → List DbTransaction
db_transactions_sig_missing db = select (λ r. not r.is_fully_signed) db.presigned
