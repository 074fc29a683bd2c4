-- ===== src/Poller/Reorg.antt =====
-- src/daemon/bitcoind/poller.rs: the state is taken back after a reorganisation of the chain. What is
-- logged and the 5 seconds of sleep are left out; the loops that wait for a stable tip and the
-- restarts run on fuel.
pub mod Stages
pub mod Fuel
use revaultd.Prelude.{
  ℕ, zero, suc, Bool, true, false, not, Option, none, some, List, [], ◌∷◌, ◌==◌, ◌&&◌, ◌||◌, ◌+◌,
  ◌-◌, ltb, if◌then◌else◌, ok, err, ok_or,
}
use mathlib.Core.List.{reverse}
use revaultd.Fault.{Fault, Res, panic, custom, no_vault_for_unvault, still_running}
use revaultd.Status
use revaultd.Status.{
  VaultStatus, status_eq, unconfirmed, funded, securing, secured, activating, active, unvaulting,
  unvaulted, canceling, canceled, emergency_vaulting, emergency_vaulted, unvault_emergency_vaulting,
  unvault_emergency_vaulted, spending, spent,
}
use revaultd.Database.Schema.{Txid, OutPoint, BlockchainTip, Psbt, DbVault, DbTransaction, Db}
use revaultd.Database.Interface.{db_tip, db_unvault_dbtx, db_cancel_transaction}
use revaultd.Database.Marks.{
  db_update_tip_dbtx, db_unconfirm_unvault_dbtx, db_unconfirm_spend_dbtx, db_unconfirm_cancel_dbtx,
  db_unconfirm_emer_dbtx, db_unconfirm_unemer_dbtx,
}
use revaultd.Database.Deposits.{db_unconfirm_deposit_dbtx}
use revaultd.Database.Spends.{db_mark_rebroadcastable_spend}
use revaultd.Cache.{UtxoInfo, insert, set_confirmed}
use revaultd.Bitcoind.Run.{
  World, Run, ◌>>=◌, ◌>>◌, return, fail, lift, get_db, exec, try_exec, on_unvaults, try_unvaults,
  try_deposits, or_default,
}
use revaultd.Bitcoind.Json.{WalletTx}
use revaultd.Bitcoind.Client.{
  Rpc, get_tip, getblockhash, get_wallet_transaction, rebroadcast_wallet_tx,
}
use revaultd.Poller.Wallet.{Wallet, cancel_txid, emer_txid, unemer_txid}
use revaultd.Poller.Tip.{new_tip_event}

abbrev pub tip_eq : BlockchainTip → BlockchainTip → Bool
tip_eq a b = a.height == b.height && a.hash == b.hash

abbrev pub is_any : List VaultStatus → DbVault → Bool
is_any [] v = false
is_any (s ∷ ss) v = status_eq v.status s || is_any ss v

-- The Unvault transaction was broadcast.
abbrev pub second_layer : DbVault → Bool
second_layer = is_any (
    unvaulting ∷ unvaulted ∷ spending ∷ spent ∷ canceling ∷ canceled ∷ unvault_emergency_vaulting
    ∷ unvault_emergency_vaulted ∷ [])

module _ (rpc : Rpc) (wallet : Wallet) (min_conf : ℕ) where
  -- An error of the broadcast is only logged.
  unfoldable pub kick : Txid → Run (Unit {0})
  unfolding rebroadcast_wallet_tx
  kick txid = or_default tt (rebroadcast_wallet_tx rpc txid)

  abbrev unconfirmed_txo : Psbt → ℕ → UtxoInfo
  unconfirmed_txo unvault_tx index = record (wallet.unvault_txo unvault_tx index) {
    is_confirmed = false;
  }

  abbrev back_in_cache : DbVault → Psbt → Run (Unit {0})
  back_in_cache vault unvault_tx = on_unvaults (
      insert (wallet.unvault_outpoint unvault_tx vault.derivation_index)
        (unconfirmed_txo unvault_tx vault.derivation_index))

  abbrev kick_cancel : Option DbTransaction → Run (Unit {0}) → Run (Unit {0})
  kick_cancel none next = return tt
  kick_cancel (some cancel_tx) next = kick cancel_tx.psbt.txid >> next

  unfoldable pub unconfirm_unvault : DbVault → Psbt → Run (Unit {0})
  unfolding kick db_unconfirm_unvault_dbtx db_mark_rebroadcastable_spend db_cancel_transaction
      set_confirmed
  unconfirm_unvault vault unvault_tx =
      exec (db_unconfirm_unvault_dbtx vault.id)
      >> kick unvault_tx.txid
      >> (if is_any (spent ∷ spending ∷ []) vault
          then (exec (db_mark_rebroadcastable_spend unvault_tx.txid)
              >> back_in_cache vault unvault_tx)
          else if is_any (unvaulted ∷ []) vault
          then try_unvaults panic
              (set_confirmed false (wallet.unvault_outpoint unvault_tx vault.derivation_index))
          else if is_any (canceled ∷ canceling ∷ []) vault
          then (get_db >>= λ db.
              kick_cancel (db_cancel_transaction db vault.id) (back_in_cache vault unvault_tx))
          else return tt)

  -- `match vault.status`
  unfoldable pub unconfirm_vault : DbVault → Run (Unit {0})
  unfolding kick unconfirm_unvault db_unvault_dbtx db_unconfirm_deposit_dbtx set_confirmed
  unconfirm_vault vault =
      kick vault.deposit_outpoint.txid
      >> (if is_any (unconfirmed ∷ []) vault
          then fail panic
          else if second_layer vault
          then (get_db >>= λ db.
              lift (ok_or (custom no_vault_for_unvault) (db_unvault_dbtx db vault.id))
              >>= λ unvault_tx. unconfirm_unvault vault unvault_tx)
          else (try_exec (db_unconfirm_deposit_dbtx vault.id)
              >> try_deposits panic (set_confirmed false vault.deposit_outpoint)))

  -- `if bitcoind.get_tip()? != tip { return comprehensive_rescan(..) }`: the answer `false` is the
  -- call to start again.
  unfoldable pub if_still : BlockchainTip → Run Bool → Run Bool
  unfolding get_tip
  if_still tip next = do now ← get_tip rpc; if tip_eq now tip then next else return false

  abbrev on_height : Option ℕ → Run (Unit {0}) → (ℕ → Run Bool) → Run Bool
  on_height none undo next = undo >> return true
  on_height (some height) undo next = next height

  -- The transaction is looked up under the same tip; without a block, `undo` runs and the vault is
  -- done with.
  unfoldable pub look : BlockchainTip → Txid → Run (Unit {0}) → (ℕ → Run Bool) → Run Bool
  unfolding if_still get_wallet_transaction
  look tip txid undo next =
      if_still tip (get_wallet_transaction rpc txid >>= λ tx. on_height tx.blockheight undo next)

  abbrev look_if : BlockchainTip → Option Txid → Run (Unit {0}) → Run Bool → Run Bool
  look_if tip none undo next = return true
  look_if tip (some txid) undo next = look tip txid undo (λ _. next)

  -- The third layer: the transaction that spends the Unvault. The routines that compute a txid open a
  -- connection of their own, which sees the database as it was before the transaction: `stored`.
  unfoldable pub rescan_terminal : Db → BlockchainTip → DbVault → Run Bool
  unfolding look cancel_txid unemer_txid db_unconfirm_spend_dbtx db_unconfirm_cancel_dbtx
      db_unconfirm_unemer_dbtx
  rescan_terminal stored tip vault =
      if is_any (spent ∷ []) vault
      then (lift (ok_or panic vault.spend_txid) >>= λ spend_txid.
          look tip spend_txid (exec (db_unconfirm_spend_dbtx vault.id)) (λ _. return true))
      else if is_any (canceled ∷ []) vault
      then (lift (cancel_txid wallet vault stored) >>= λ txid.
          look tip txid (exec (db_unconfirm_cancel_dbtx vault.id)) (λ _. return true))
      else if is_any (unvault_emergency_vaulted ∷ []) vault
      then (lift (unemer_txid wallet vault stored) >>= λ txid.
          look_if tip txid (exec (db_unconfirm_unemer_dbtx vault.id)) (return true))
      else return true

  abbrev rescan_unvault_tx : Db → BlockchainTip → DbVault → Option Psbt → Run Bool
  rescan_unvault_tx stored tip vault none = return true
  rescan_unvault_tx stored tip vault (some unvault_tx) =
      look tip unvault_tx.txid (unconfirm_unvault vault unvault_tx)
        (λ _. rescan_terminal stored tip vault)

  -- The second layer, which 'unvaulting' is not part of.
  unfoldable pub rescan_unvault : Db → BlockchainTip → DbVault → Run Bool
  unfolding look rescan_terminal unconfirm_unvault db_unvault_dbtx
  rescan_unvault stored tip vault =
      if second_layer vault && not (is_any (unvaulting ∷ []) vault)
      then (get_db >>= λ db. rescan_unvault_tx stored tip vault (db_unvault_dbtx db vault.id))
      else return true

  unfoldable pub rescan_emer : Db → BlockchainTip → DbVault → Run Bool
  unfolding look emer_txid db_unconfirm_emer_dbtx rescan_unvault
  rescan_emer stored tip vault =
      if is_any (emergency_vaulted ∷ []) vault
      then (lift (emer_txid wallet vault stored) >>= λ txid.
          look_if tip txid (exec (db_unconfirm_emer_dbtx vault.id))
            (rescan_unvault stored tip vault))
      else rescan_unvault stored tip vault

  -- `tip.height.checked_sub(dep_height).expect(..) + 1` against the minimum.
  unfoldable pub rescan_deposit : Db → BlockchainTip → DbVault → ℕ → Run Bool
  unfolding unconfirm_vault rescan_emer
  rescan_deposit stored tip vault dep_height =
      if ltb tip.height dep_height
      then fail panic
      else if ltb (tip.height - dep_height + 1) min_conf
      then (unconfirm_vault vault >> return true)
      else rescan_emer stored tip vault

  unfoldable pub rescan_vault : Db → BlockchainTip → DbVault → Run Bool
  unfolding look unconfirm_vault if_still rescan_deposit
  rescan_vault stored tip vault =
      if is_any (unconfirmed ∷ []) vault
      then return true
      else look tip vault.deposit_outpoint.txid (unconfirm_vault vault)
          (λ dep_height. if_still tip (rescan_deposit stored tip vault dep_height))

  -- `while let Some(vault) = vaults.pop()`
  unfoldable pub rescan_vaults : Db → BlockchainTip → List DbVault → Run Bool
  unfolding rescan_vault
  rescan_vaults stored tip [] = return true
  rescan_vaults stored tip (vault ∷ vaults) =
      let rest = rescan_vaults stored tip vaults in
      rescan_vault stored tip vault >>= λ go. (if go then rest else return false)

  unfoldable pub stable_tip : ℕ → BlockchainTip → Run BlockchainTip
  unfolding get_tip
  stable_tip zero tip = fail still_running
  stable_tip (suc fuel) tip =
      let again = stable_tip fuel in
      get_tip rpc >>= λ now. (if tip_eq tip now then return tip else again now)

  unfoldable pub comprehensive_rescan : Db → ℕ → Run (Unit {0})
  unfolding get_tip stable_tip rescan_vaults db_update_tip_dbtx
  comprehensive_rescan stored zero = fail still_running
  comprehensive_rescan stored (suc fuel) =
      let again = comprehensive_rescan stored fuel in
      get_db >>= λ db. get_tip rpc >>= λ first. stable_tip (suc fuel) first >>= λ tip.
      rescan_vaults stored tip (reverse db.vaults) >>= λ done.
      (if done then exec (db_update_tip_dbtx tip) else again)

  -- `db_exec` around the rescan: what it wrote is dropped on an error, which stops the process.
  abbrev committed : World → Res (Unit {0}) × World → Res (Unit {0}) × World
  committed before (ok _, w) = (ok tt, w)
  committed before (err _, w) = (err panic, record w { db = before.db })

  unfoldable pub reorganised : ℕ → Run (Unit {0})
  unfolding comprehensive_rescan
  reorganised fuel w = committed w (comprehensive_rescan w.db fuel w)

  -- The chain moved forward if the block that we stored is still in it.
  abbrev same_chain : BlockchainTip → BlockchainTip → Run Bool
  same_chain current_tip tip =
      if ltb current_tip.height tip.height
      then (getblockhash rpc current_tip.height >>= λ hash.
          return (hash == current_tip.hash || current_tip.height == 0))
      else return false

  -- It returns the previous tip.
  unfoldable pub update_tip : ℕ → Run BlockchainTip
  unfolding get_tip getblockhash new_tip_event reorganised
  update_tip fuel = get_db >>= λ db. lift (db_tip db) >>= λ current_tip. get_tip rpc >>= λ tip.
      (if tip_eq tip current_tip
        then return tip
        else (same_chain current_tip tip >>= λ forward.
            (if forward
              then (new_tip_event rpc wallet tip >> return current_tip)
              else (reorganised fuel >> return current_tip))))
