-- ===== src/Poller/Setup.antt =====
-- src/daemon/bitcoind/utils.rs: the transactions of a deposit, and the caches at startup.
pub mod Populated
use revaultd.Prelude.{
  ℕ, suc, ◌+◌, ◌%◌, ◌^◌, Bool, true, false, not, ltb, leb, Option, none, some, List, [], ◌∷◌, ◌==◌,
  ok, err, ok_or, if◌then◌else◌,
}
use revaultd.Fault.{
  Fault, Res, custom, panic, unknown_derivation_index, unknown_vault_confirmed,
  unknown_unvault_confirmed, deriving_next_index,
}
use revaultd.Status.{VaultStatus, status_eq, unconfirmed, unvaulting}
use revaultd.Database.Schema.{Txid, OutPoint, BlockchainTip, Psbt, DbVault, DbTransaction, Db}
use revaultd.Database.Interface.{
  db_vault_by_deposit, db_deposits, db_unvaulted_vaults, db_unvault_from_deposit,
}
use revaultd.Database.Deposits.{db_insert_new_unconfirmed_vault, db_confirm_deposit}
use revaultd.Database.Marks.{
  db_update_deposit_index, db_unvault_deposit, db_confirm_unvault, db_mark_emergencying_vault,
}
use revaultd.Cache.{UtxoInfo, Cache, insert, set_confirmed}
use revaultd.Bitcoind.Json.{WalletTx}
use revaultd.Bitcoind.Sync.{OnchainDescriptorState, sync_deposits, sync_unvaults}
use revaultd.Bitcoind.Run.{
  World, Run, ◌>>=◌, ◌>>◌, return, fail, lift, get_db, exec, try_exec, on_unvaults, on_deposits,
  try_unvaults, try_deposits, request, each,
}
use revaultd.Bitcoind.Client.{Rpc, is_current, get_wallet_transaction}
use revaultd.Poller.Wallet.{PresignedTxs, Wallet, emer_txid}

-- The configuration, the descriptors, and what bitcoind answers to the import of an address.
pub record Setup : Type 0 where
  pub dust_limit : ℕ
  pub min_deposit : ℕ
  pub min_conf : ℕ
  pub wallet_id : Option ℕ
  pub derivation_index_map : ℕ → Option ℕ
  pub increment : ℕ → Option ℕ
  pub deposit_script : ℕ → ℕ
  pub deposit_address : ℕ → ℕ
  pub unvault_address : ℕ → ℕ
  -- the Unvault of an outpoint, a value and a derivation index
  pub unvault_tx : OutPoint → ℕ → ℕ → Res Psbt
  pub addr_descriptor : ℕ → ℕ → Res ℕ
  pub import_fresh_deposit : ℕ → ℕ → Res (Unit {0})
  pub import_fresh_unvault : ℕ → ℕ → Res (Unit {0})

module _ (setup : Setup) (wallet : Wallet) where
  -- The Unvault and the Cancel, and for a stakeholder the two Emergency transactions.
  unfoldable pub presigned_transactions :
      OutPoint → UtxoInfo → Res (Psbt × Psbt × Option Psbt × Option Psbt)
  presigned_transactions outpoint utxo = elim (setup.derivation_index_map utxo.script_pubkey) [
    | none ↦ err (custom unknown_derivation_index)
    | some index ↦ elim wallet.is_stakeholder [
      | true ↦ elim (wallet.transaction_chain outpoint utxo.value index) [
        | ok txs ↦ ok (txs.unvault_tx, txs.cancel_tx, some txs.emer_tx, some txs.unemer_tx)
        | err e ↦ err e
      ]
      | false ↦ elim (wallet.transaction_chain_manager outpoint utxo.value index) [
        | ok txs ↦ ok (txs.0, txs.1, none, none)
        | err e ↦ err e
      ]
    ]
  ]

  abbrev pub deposit_info : DbVault → UtxoInfo
  deposit_info v = record {
    value = v.amount;
    script_pubkey = setup.deposit_script v.derivation_index;
    is_confirmed = not (status_eq v.status unconfirmed);
  }

  unfoldable pub load_deposits : List DbVault → Cache → Cache
  unfolding insert
  load_deposits [] cache = cache
  load_deposits (v ∷ vs) cache = load_deposits vs (insert v.deposit_outpoint (deposit_info v) cache)

  unfoldable pub populate_deposit_cache : Db → Cache
  unfolding load_deposits
  populate_deposit_cache db = load_deposits (db_deposits db) []

  abbrev pub unvault_info : DbVault → DbTransaction → UtxoInfo
  unvault_info v r = record (wallet.unvault_txo r.psbt v.derivation_index) {
    is_confirmed = not (status_eq v.status unvaulting);
  }

  unfoldable pub load_unvaults : List (DbVault × DbTransaction) → Cache → Cache
  unfolding insert
  load_unvaults [] cache = cache
  load_unvaults ((v, r) ∷ rows) cache =
      load_unvaults rows
        (insert (wallet.unvault_outpoint r.psbt v.derivation_index) (unvault_info v r) cache)

  unfoldable pub populate_unvaults_cache : Db → Cache
  unfolding load_unvaults
  populate_unvaults_cache db = load_unvaults (db_unvaulted_vaults db) []

  -- The Unvault transaction of the database, or else the one that is derived.
  abbrev pub unvault_or_derived : Option Psbt → OutPoint → ℕ → ℕ → Res Psbt
  unvault_or_derived (some tx) outpoint value index = ok tx
  unvault_or_derived none outpoint value index = setup.unvault_tx outpoint value index

  abbrev pub txin_of : ℕ → Res Psbt → Res (OutPoint × UtxoInfo)
  txin_of index (ok tx) = ok (wallet.unvault_outpoint tx index, wallet.unvault_txo tx index)
  txin_of index (err e) = err e

  unfoldable pub unvault_txin_from_deposit : Db → OutPoint → ℕ → Res (OutPoint × UtxoInfo)
  unfolding db_vault_by_deposit db_unvault_from_deposit
  unvault_txin_from_deposit db deposit_outpoint value =
      elim (db_vault_by_deposit db deposit_outpoint) [
        | none ↦ err panic
        | some v ↦ txin_of v.derivation_index (
            unvault_or_derived (db_unvault_from_deposit db deposit_outpoint) deposit_outpoint value
              v.derivation_index)
      ]
