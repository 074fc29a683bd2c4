-- ===== src/Poller/Tip.antt =====
-- src/daemon/bitcoind/poller.rs: what is done when the chain moves forward, `new_tip_event`.
pub mod Frame
pub mod Quiet
use revaultd.Prelude.{
  ℕ, Bool, true, false, not, Option, none, some, List, [], ◌∷◌, if◌then◌else◌, ok, err, ok_or,
}
use revaultd.Fault.{Fault, Res, database, panic, no_unvault_tx, is_fatal}
use revaultd.Database.Schema.{
  Txid, OutPoint, BlockchainTip, Psbt, SpendPsbt, DbVault, DbTransaction, DbSpendTransaction, Db,
}
use revaultd.Database.Interface.{
  db_spending_vaults, db_canceling_vaults, db_emering_vaults, db_unemering_vaults,
  db_unvault_transaction,
}
use revaultd.Database.Marks.{
  db_update_tip, db_confirm_unvault, db_mark_spent_unvault, db_mark_canceled_unvault,
  db_mark_emergencied_unvault, db_mark_emergencied_vault,
}
use revaultd.Database.Spends.{db_broadcastable_spend_transactions, db_mark_broadcasted_spend}
use revaultd.Cache.{UtxoInfo, insert}
use revaultd.Bitcoind.Run.{
  World, Run, ◌>>=◌, ◌>>◌, return, fail, lift, get_db, exec, on_unvaults, or_default, each,
}
use revaultd.Bitcoind.Json.{WalletTx}
use revaultd.Bitcoind.Client.{Rpc, get_wallet_transaction, broadcast_transaction, is_in_mempool}
use revaultd.Poller.Wallet.{Wallet}

module _ (rpc : Rpc) where
  -- `if let (_, Some(height), _) = bitcoind.get_wallet_transaction(txid)?`, then the statement: the
  -- body of the four routines below.
  abbrev pub if_confirmed : Option ℕ → (Db → Db) → Run Bool
  if_confirmed (some height) mark = exec mark >> return true
  if_confirmed none mark = return false

  unfoldable pub maybe_confirm : Txid → (Db → Db) → Run Bool
  unfolding get_wallet_transaction
  maybe_confirm txid mark = do
    tx ← get_wallet_transaction rpc txid
    if_confirmed tx.blockheight mark

  unfoldable pub maybe_confirm_spend : DbVault → Txid → Run Bool
  unfolding maybe_confirm db_mark_spent_unvault
  maybe_confirm_spend db_vault spend_txid =
      maybe_confirm spend_txid (db_mark_spent_unvault db_vault.id)

  unfoldable pub maybe_confirm_cancel : DbVault → Txid → Run Bool
  unfolding maybe_confirm db_mark_canceled_unvault
  maybe_confirm_cancel db_vault cancel_txid =
      maybe_confirm cancel_txid (db_mark_canceled_unvault db_vault.id)

  unfoldable pub maybe_confirm_unemer : DbVault → Txid → Run Bool
  unfolding maybe_confirm db_mark_emergencied_unvault
  maybe_confirm_unemer db_vault unemer_txid =
      maybe_confirm unemer_txid (db_mark_emergencied_unvault db_vault.id)

  unfoldable pub maybe_confirm_emer : DbVault → Txid → Run Bool
  unfolding maybe_confirm db_mark_emergencied_vault
  maybe_confirm_emer db_vault emer_txid =
      maybe_confirm emer_txid (db_mark_emergencied_vault db_vault.id)

  -- The transaction is checked first, where an error counts as handled (`continue`); if it is not
  -- confirmed and not in the mempool either, `evicted` runs.
  unfoldable pub track : Run Bool → Txid → Run (Unit {0}) → Run (Unit {0})
  unfolding is_in_mempool
  track check txid evicted = do
    handled ← or_default true check
    if handled
        then return tt
        else (is_in_mempool rpc txid >>= λ in_mempool. (if in_mempool then return tt else evicted))

  module _ (wallet : Wallet) where
    -- The txout of the Unvault, marked as confirmed.
    abbrev confirmed_txo : Psbt → ℕ → UtxoInfo
    confirmed_txo unvault_tx index = record (wallet.unvault_txo unvault_tx index) {
      is_confirmed = true;
    }

    unfoldable pub back_to_unvaulted : DbVault → Psbt → Run (Unit {0})
    unfolding db_confirm_unvault insert
    back_to_unvaulted db_vault unvault_tx = do
      exec (db_confirm_unvault unvault_tx.txid)
      on_unvaults (
          insert (wallet.unvault_outpoint unvault_tx db_vault.derivation_index)
            (confirmed_txo unvault_tx db_vault.derivation_index))

    unfoldable pub mark_unvaulted : DbVault → Run (Unit {0})
    unfolding db_unvault_transaction back_to_unvaulted
    mark_unvaulted db_vault = do
      db ← get_db
      unvault_tx ← lift (db_unvault_transaction db db_vault.id)
      back_to_unvaulted db_vault unvault_tx.psbt

    unfoldable pub track_spend : DbVault × DbTransaction → Run (Unit {0})
    unfolding track maybe_confirm_spend back_to_unvaulted
    track_spend (db_vault, unvault_tx) = do
      spend_txid ← lift (ok_or panic db_vault.spend_txid)
      track (maybe_confirm_spend db_vault spend_txid) spend_txid
          (back_to_unvaulted db_vault unvault_tx.psbt)

    unfoldable pub mark_confirmed_spends : Run (Unit {0})
    unfolding db_spending_vaults track_spend each
    mark_confirmed_spends = do db ← get_db; each (db_spending_vaults db) track_spend

    unfoldable pub track_cancel : DbVault × DbTransaction → Run (Unit {0})
    unfolding track maybe_confirm_cancel mark_unvaulted
    track_cancel (db_vault, cancel_tx) =
        track (maybe_confirm_cancel db_vault cancel_tx.psbt.txid) cancel_tx.psbt.txid
          (mark_unvaulted db_vault)

    unfoldable pub mark_confirmed_cancels : Run (Unit {0})
    unfolding db_canceling_vaults track_cancel each
    mark_confirmed_cancels = do db ← get_db; each (db_canceling_vaults db) track_cancel

    unfoldable pub track_unemer : DbVault × DbTransaction → Run (Unit {0})
    unfolding track maybe_confirm_unemer mark_unvaulted
    track_unemer (db_vault, unemer_tx) =
        track (maybe_confirm_unemer db_vault unemer_tx.psbt.txid) unemer_tx.psbt.txid
          (mark_unvaulted db_vault)

    unfoldable pub mark_confirmed_unemers : Run (Unit {0})
    unfolding db_unemering_vaults track_unemer each
    mark_confirmed_unemers = do db ← get_db; each (db_unemering_vaults db) track_unemer

    unfoldable pub track_emer : DbVault × DbTransaction → Run (Unit {0})
    unfolding track maybe_confirm_emer mark_unvaulted
    track_emer (db_vault, emer_tx) =
        track (maybe_confirm_emer db_vault emer_tx.psbt.txid) emer_tx.psbt.txid
          (mark_unvaulted db_vault)

    unfoldable pub mark_confirmed_emers : Run (Unit {0})
    unfolding db_emering_vaults track_emer each
    mark_confirmed_emers = do db ← get_db; each (db_emering_vaults db) track_emer

    abbrev pub broadcasted : Txid → Res (Unit {0}) × World → Res (Unit {0}) × World
    broadcasted txid (ok _, w) = exec (db_mark_broadcasted_spend txid) w
    broadcasted txid (err e, w) = (if is_fatal e then err e else ok tt, w)

    -- The finalized transaction, if there is one, is sent.
    unfoldable pub attempt : Txid → Option ℕ → Run (Unit {0})
    unfolding broadcast_transaction db_mark_broadcasted_spend
    attempt txid none w = (ok tt, w)
    attempt txid (some tx) w = broadcasted txid (broadcast_transaction rpc tx w)

    -- A Spend that cannot be finalized yet, or that bitcoind refuses, is tried again later.
    unfoldable pub maybe_broadcast_spend : DbSpendTransaction → Run (Unit {0})
    unfolding attempt
    maybe_broadcast_spend db_spendtx =
        attempt db_spendtx.psbt.txid (wallet.finalize db_spendtx.psbt)

    unfoldable pub maybe_broadcast_spend_transactions : Run (Unit {0})
    unfolding db_broadcastable_spend_transactions maybe_broadcast_spend each
    maybe_broadcast_spend_transactions = do
      db ← get_db
      each (db_broadcastable_spend_transactions db) maybe_broadcast_spend

    unfoldable pub new_tip_event : BlockchainTip → Run (Unit {0})
    unfolding db_update_tip maybe_broadcast_spend_transactions mark_confirmed_spends
        mark_confirmed_cancels mark_confirmed_emers mark_confirmed_unemers
    new_tip_event new_tip = do
      exec (db_update_tip new_tip)
      maybe_broadcast_spend_transactions
      mark_confirmed_spends
      mark_confirmed_cancels
      mark_confirmed_emers
      mark_confirmed_unemers
