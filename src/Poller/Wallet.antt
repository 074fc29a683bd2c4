-- ===== src/Poller/Wallet.antt =====
-- What the poller takes from the library revault_tx and from the configuration, and
-- src/daemon/bitcoind/utils.rs.
use revaultd.Prelude.{ℕ, Bool, true, false, Option, none, some, ok, err}
use revaultd.Fault.{Res}
use revaultd.Database.Schema.{Txid, OutPoint, Psbt, SpendPsbt, DbVault, DbTransaction, Db}
use revaultd.Database.Interface.{
  db_cancel_transaction, db_emer_transaction, db_unvault_emer_transaction,
}
use revaultd.Cache.{UtxoInfo}

-- The presigned transactions of a deposit, as `transaction_chain` derives them.
pub record PresignedTxs : Type 0 where
  pub unvault_tx : Psbt
  pub cancel_tx : Psbt
  pub emer_tx : Psbt
  pub unemer_tx : Psbt

-- The functions get the outpoint, the amount and the derivation index of a deposit; the
-- descriptors, the emergency address and the lock time are constants of the wallet.
pub record Wallet : Type 0 where
  pub is_stakeholder : Bool
  pub transaction_chain : OutPoint → ℕ → ℕ → Res PresignedTxs
  pub transaction_chain_manager : OutPoint → ℕ → ℕ → Res (Psbt × Psbt)
  -- of an Unvault transaction and its derivation index
  pub unvault_outpoint : Psbt → ℕ → OutPoint
  pub unvault_txo : Psbt → ℕ → UtxoInfo
  -- a finalized Spend as the text of a transaction, if it is valid
  pub finalize : SpendPsbt → Option ℕ

module _ (wallet : Wallet) where
  abbrev chain_of : DbVault → Res PresignedTxs
  chain_of v = wallet.transaction_chain v.deposit_outpoint v.amount v.derivation_index

  abbrev manager_chain_of : DbVault → Res (Psbt × Psbt)
  manager_chain_of v =
      wallet.transaction_chain_manager v.deposit_outpoint v.amount v.derivation_index

  abbrev stored_or : Option DbTransaction → Res Txid → Res Txid
  stored_or none derived = derived
  stored_or (some r) derived = ok r.psbt.txid

  abbrev only_if : Bool → Res Txid → Res (Option Txid)
  only_if false r = ok none
  only_if true (ok txid) = ok (some txid)
  only_if true (err e) = err e

  abbrev txid_from {ℓ} : {A : Type ℓ} → (A → Psbt) → Res A → Res Txid
  txid_from f (ok a) = ok (f a).txid
  txid_from f (err e) = err e

  unfoldable pub cancel_txid : DbVault → Db → Res Txid
  unfolding db_cancel_transaction
  cancel_txid db_vault db =
      stored_or (db_cancel_transaction db db_vault.id)
        (txid_from (λ (p : Psbt × Psbt). p.1) (manager_chain_of db_vault))

  unfoldable pub unemer_txid : DbVault → Db → Res (Option Txid)
  unfolding db_unvault_emer_transaction
  unemer_txid db_vault db = only_if wallet.is_stakeholder (
      stored_or (db_unvault_emer_transaction db db_vault.id)
        (txid_from (λ (p : PresignedTxs). p.unemer_tx) (chain_of db_vault)))

  unfoldable pub emer_txid : DbVault → Db → Res (Option Txid)
  unfolding db_emer_transaction
  emer_txid db_vault db = only_if wallet.is_stakeholder (
      stored_or (db_emer_transaction db db_vault.id)
        (txid_from (λ (p : PresignedTxs). p.emer_tx) (chain_of db_vault)))
