-- ===== src/Poller/Unvaults.antt =====
-- src/daemon/bitcoind/poller.rs: an Unvault output was spent, and the poller looks for what did.
pub mod Spends
use revaultd.Prelude.{
  ℕ, Bool, true, false, Option, none, some, List, [], ◌∷◌, ◌==◌, ◌||◌, if◌then◌else◌, ok, err,
  ok_or,
}
use revaultd.Fault.{
  Fault, Res, custom, panic, no_vault_for_spent_unvault, unknown_unvault_spent,
  no_vault_for_unvault,
}
use revaultd.Database.Schema.{Txid, OutPoint, BlockchainTip, DbVault, DbTransaction, Db}
use revaultd.Database.Interface.{db_vault_by_unvault_txid}
use revaultd.Database.Marks.{db_cancel_unvault, db_spend_unvault, db_emer_unvault}
use revaultd.Cache.{Cache, get, remove}
use revaultd.Bitcoind.Run.{
  World, Run, ◌>>=◌, ◌>>◌, return, fail, lift, get_db, exec, try_unvaults, or_default,
}
use revaultd.Bitcoind.Client.{Rpc, is_current, get_spender_txid}
use revaultd.Poller.Wallet.{Wallet, cancel_txid, unemer_txid}
use revaultd.Poller.Tip.{maybe_confirm_spend, maybe_confirm_cancel, maybe_confirm_unemer}

pub data UnvaultSpender : Type 0 where
  cancel spend emergency : Txid → UnvaultSpender

-- `cache.remove(&o)`, which has no result if there was no entry.
unfoldable pub take : OutPoint → Cache → Option Cache
unfolding get remove
take o c = elim (get c o) [ none ↦ none | some _ ↦ some (remove o c) ]

-- `Some(a) == b`
abbrev pub is_some_txid : Txid → Option Txid → Bool
is_some_txid a none = false
is_some_txid a (some b) = a == b

module _ (rpc : Rpc) (wallet : Wallet) where
  -- `if let Some(txid) = …`, then `is_current`
  abbrev pub is_current_if : Option Txid → Run Bool
  is_current_if none = return false
  is_current_if (some txid) = is_current rpc txid

  abbrev pub emergency_of : Option Txid → Option UnvaultSpender
  emergency_of none = none
  emergency_of (some txid) = some (emergency txid)

  abbrev pub spend_if : Txid → Bool → Run (Option UnvaultSpender)
  spend_if txid true = return (some (spend txid))
  spend_if txid false = return none

  -- What the search for the spender found is checked again.
  unfoldable pub spend_of : Txid → Option Txid → Option Txid → Run (Option UnvaultSpender)
  unfolding is_current
  spend_of cancel_id unemer_id none = return none
  spend_of cancel_id unemer_id (some spender_txid) =
      if spender_txid == cancel_id || is_some_txid spender_txid unemer_id
      then return none
      else (is_current rpc spender_txid >>= spend_if spender_txid)

  -- Neither the Cancel is current, nor, by this answer, the UnvaultEmergency.
  unfoldable pub search_spend :
      BlockchainTip → OutPoint → Txid → Option Txid → Bool → Run (Option UnvaultSpender)
  unfolding get_spender_txid spend_of
  search_spend previous_tip o cancel_id unemer_id true = return (emergency_of unemer_id)
  search_spend previous_tip o cancel_id unemer_id false =
      get_spender_txid rpc o previous_tip.hash >>= spend_of cancel_id unemer_id

  unfoldable pub unless_canceled :
      BlockchainTip → OutPoint → DbVault → Db → Txid → Bool → Run (Option UnvaultSpender)
  unfolding unemer_txid search_spend
  unless_canceled previous_tip o vault db cancel_id true = return (some (cancel cancel_id))
  unless_canceled previous_tip o vault db cancel_id false = do
    unemer_id ← lift (unemer_txid wallet vault db)
    emergencied ← is_current_if unemer_id
    search_spend previous_tip o cancel_id unemer_id emergencied

  unfoldable pub unvault_spender : BlockchainTip → OutPoint → Run (Option UnvaultSpender)
  unfolding db_vault_by_unvault_txid cancel_txid is_current unless_canceled
  unvault_spender previous_tip unvault_outpoint = do
    db ← get_db
    found ← lift (
        ok_or (custom no_vault_for_spent_unvault)
          (db_vault_by_unvault_txid db unvault_outpoint.txid))
    cancel_id ← lift (cancel_txid wallet found.0 db)
    canceled ← is_current rpc cancel_id
    unless_canceled previous_tip unvault_outpoint found.0 db cancel_id canceled

  -- The common end of the three branches: the entry is dropped, and the vault is read again to
  -- check for a confirmation, of which an error is only logged.
  unfoldable pub settle : Fault → OutPoint → (DbVault → Run Bool) → Run (Unit {0})
  unfolding take db_vault_by_unvault_txid
  settle unknown unvault_outpoint check = do
    try_unvaults unknown (take unvault_outpoint)
    db ← get_db
    found ←
        lift
          (ok_or (custom no_vault_for_unvault) (db_vault_by_unvault_txid db unvault_outpoint.txid))
    _ ← or_default false (check found.0)
    return tt

  unfoldable pub react : OutPoint → Option UnvaultSpender → Run (Unit {0})
  unfolding settle db_cancel_unvault db_spend_unvault db_emer_unvault maybe_confirm_cancel
      maybe_confirm_spend maybe_confirm_unemer
  react unvault_outpoint none = return tt
  react unvault_outpoint (some (cancel txid)) = do
    exec (db_cancel_unvault unvault_outpoint.txid)
    settle panic unvault_outpoint (λ v. maybe_confirm_cancel rpc v txid)
  react unvault_outpoint (some (spend txid)) = do
    exec (db_spend_unvault unvault_outpoint.txid txid)
    settle (custom unknown_unvault_spent) unvault_outpoint (λ v. maybe_confirm_spend rpc v txid)
  react unvault_outpoint (some (emergency txid)) = do
    exec (db_emer_unvault unvault_outpoint.txid)
    settle (custom unknown_unvault_spent) unvault_outpoint (λ v. maybe_confirm_unemer rpc v txid)

  unfoldable pub handle_spent_unvault : BlockchainTip → OutPoint → Run (Unit {0})
  unfolding unvault_spender react
  handle_spent_unvault previous_tip unvault_outpoint = do
    spender ← unvault_spender previous_tip unvault_outpoint
    react unvault_outpoint spender
