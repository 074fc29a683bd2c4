-- ===== src/Control/Onchain.antt =====
-- src/daemon/control.rs: `onchain_txs`, which asks bitcoind for the transactions of each vault.
use revaultd.Prelude.{ℕ, Bool, true, false, Option, none, some, List, [], ◌∷◌, map_err}
use revaultd.Prelude.Stateful.{◌>>=◌, return, lift}
use revaultd.Status.{unconfirmed}
use revaultd.Database.Schema.{Txid, OutPoint, DbVault}
use revaultd.Database.Interface.{
  db_unvault_transaction, db_cancel_transaction, db_emer_transaction, db_unvault_emer_transaction,
}
use revaultd.Control.Signatures.{Secp}
use revaultd.Control.Session.{aborted, from_fault, Net, Command, get_db, present}
use revaultd.Control.Coordinator.{bitcoind_wallet_tx}

-- A transaction of the wallet is the text that bitcoind has of it.
pub record VaultOnchainTransactions : Type 0 where
  pub outpoint : OutPoint
  pub deposit : ℕ
  pub unvault : Option ℕ
  pub cancel : Option ℕ
  pub emergency : Option ℕ
  pub unvault_emergency : Option ℕ
  pub spend : Option ℕ

module _ (secp : Secp) (servers : Net) where
  abbrev wallet_tx : Txid → Command (Option ℕ)
  wallet_tx = bitcoind_wallet_tx secp servers

  abbrev spend_tx : Option Txid → Command (Option ℕ)
  spend_tx none = return none
  spend_tx (some txid) = wallet_tx txid

  -- For stakeholders only.
  unfoldable pub emergency_txs : Bool → DbVault → Command (Option ℕ × Option ℕ)
  unfolding bitcoind_wallet_tx
  emergency_txs false db_vault = return (none, none)
  emergency_txs true db_vault = do
    db ← get_db
    emer ← present aborted (db_emer_transaction db db_vault.id)
    emergency ← wallet_tx emer.psbt.txid
    unemer ← present aborted (db_unvault_emer_transaction db db_vault.id)
    unvault_emergency ← wallet_tx unemer.psbt.txid
    return (emergency, unvault_emergency)

  unfoldable pub confirmed_txs : Bool → DbVault → ℕ → Command VaultOnchainTransactions
  unfolding emergency_txs bitcoind_wallet_tx
  confirmed_txs is_stakeholder db_vault deposit = do
    db ← get_db
    unvault_row ← lift (map_err from_fault (db_unvault_transaction db db_vault.id))
    unvault ← wallet_tx unvault_row.psbt.txid
    cancel_row ← present aborted (db_cancel_transaction db db_vault.id)
    cancel ← wallet_tx cancel_row.psbt.txid
    emers ← emergency_txs is_stakeholder db_vault
    spend ← spend_tx db_vault.spend_txid
    return record {
      outpoint = db_vault.deposit_outpoint;
      deposit = deposit;
      unvault = unvault;
      cancel = cancel;
      emergency = emers.0;
      unvault_emergency = emers.1;
      spend = spend;
    }

  -- `match db_vault.status`
  unfoldable pub onchain_of : Bool → DbVault → ℕ → Command VaultOnchainTransactions
  unfolding confirmed_txs
  onchain_of is_stakeholder db_vault deposit = elim db_vault.status [
    | unconfirmed ↦ return record {
      outpoint = db_vault.deposit_outpoint;
      deposit = deposit;
      unvault = none;
      cancel = none;
      emergency = none;
      unvault_emergency = none;
      spend = none;
    }
    | _ ↦ confirmed_txs is_stakeholder db_vault deposit
  ]

  unfoldable pub onchain_txs : Bool → List DbVault → Command (List VaultOnchainTransactions)
  unfolding onchain_of bitcoind_wallet_tx
  onchain_txs is_stakeholder [] = return []
  onchain_txs is_stakeholder (db_vault ∷ db_vaults) = do
    deposit_tx ← wallet_tx db_vault.deposit_outpoint.txid
    deposit ← present aborted deposit_tx
    txs ← onchain_of is_stakeholder db_vault deposit
    rest ← onchain_txs is_stakeholder db_vaults
    return (txs ∷ rest)
