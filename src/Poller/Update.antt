-- ===== src/Poller/Update.antt =====
-- src/daemon/bitcoind/poller.rs: `update_utxos`, the poll that compares both caches with bitcoind.
use revaultd.Prelude.{true, none, some, ok}
use revaultd.Fault.{custom, unknown_unvault_confirmed}
use revaultd.Database.Schema.{OutPoint, BlockchainTip}
use revaultd.Database.Marks.{db_unvault_deposit, db_confirm_unvault}
use revaultd.Cache.{UtxoInfo, Cache, insert, set_confirmed}
use revaultd.Bitcoind.Sync.{sync_deposits, sync_unvaults}
use revaultd.Bitcoind.Run.{Run, ◌>>=◌, ◌>>◌, exec, on_unvaults, try_unvaults, request, each}
use revaultd.Bitcoind.Client.{Rpc}
use revaultd.Poller.Wallet.{Wallet}
use revaultd.Poller.Unvaults.{handle_spent_unvault}
use revaultd.Poller.Setup.{Setup}
use revaultd.Poller.Deposits.{handle_new_deposit, handle_confirmed_deposit, handle_spent_deposit}

module _ (setup : Setup) (wallet : Wallet) (rpc : Rpc) where
  -- The loop bodies of `update_utxos` on the Unvaults.
  unfoldable pub new_unvault : OutPoint × UtxoInfo → Run (Unit {0})
  unfolding db_unvault_deposit insert
  new_unvault (outpoint, utxo) = do
    exec (db_unvault_deposit outpoint.txid)
    on_unvaults (insert outpoint utxo)

  unfoldable pub confirmed_unvault : OutPoint × UtxoInfo → Run (Unit {0})
  unfolding db_confirm_unvault set_confirmed
  confirmed_unvault (outpoint, _) = do
    exec (db_confirm_unvault outpoint.txid)
    try_unvaults (custom unknown_unvault_confirmed) (set_confirmed true outpoint)

  abbrev pub get_deposits : Run Cache
  get_deposits w = (ok w.deposits_cache, w)

  abbrev pub get_unvaults : Run Cache
  get_unvaults w = (ok w.unvaults_cache, w)

  unfoldable pub update_deposits : Run (Unit {0})
  unfolding sync_deposits handle_new_deposit handle_confirmed_deposit handle_spent_deposit each
  update_deposits = do
    deposits_cache ← get_deposits
    state ← request (λ n.
        sync_deposits (λ min. rpc.listunspent n (some min)) setup.min_deposit deposits_cache
          setup.min_conf)
    each state.new_unconf (handle_new_deposit setup wallet rpc)
    each state.new_conf (handle_confirmed_deposit setup wallet rpc)
    each state.new_spent (handle_spent_deposit setup wallet rpc)

  unfoldable pub update_unvaults : BlockchainTip → Run (Unit {0})
  unfolding sync_unvaults new_unvault confirmed_unvault handle_spent_unvault each
  update_unvaults previous_tip = do
    unvaults_cache ← get_unvaults
    state ← request (λ n. sync_unvaults (rpc.listunspent n none) unvaults_cache)
    each state.new_unconf new_unvault
    each state.new_conf confirmed_unvault
    each state.new_spent (λ spent. handle_spent_unvault rpc wallet previous_tip spent.0)

  unfoldable pub update_utxos : BlockchainTip → Run (Unit {0})
  unfolding update_deposits update_unvaults
  update_utxos previous_tip = update_deposits >> update_unvaults previous_tip
