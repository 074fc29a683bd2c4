-- ===== src/Poller/Main.antt =====
-- src/daemon/bitcoind/poller.rs: the main loop of the poller, which waits until bitcoind is synced.
pub mod Waits
use revaultd.Prelude.{
  ℕ, zero, suc, ◌+◌, ◌-◌, ◌*◌, ◌/◌, max, ltb, leb, Bool, true, false, not, ◌&&◌, Option, none, some,
  ◌==◌, if◌then◌else◌, ok, err, Result,
}
use revaultd.Fault.{
  Fault, Res, Custom, custom, panic, still_running, creating_wallet, loading_wallet,
}
use revaultd.Database.Schema.{BlockchainTip}
use revaultd.Bitcoind.Run.{World, Run, ◌>>=◌, ◌>>◌, return, fail, lift}
use revaultd.Bitcoind.Client.{Rpc}
use revaultd.Bitcoind.Wallets.{Network, regtest, Node, SyncInfo, synchronization_info}
use revaultd.Poller.Wallet.{Wallet}
use revaultd.Poller.Setup.{Setup, populate_deposit_cache, populate_unvaults_cache}
use revaultd.Poller.Update.{update_utxos}
use revaultd.Poller.Reorg.{update_tip}
use revaultd.Poller.Watchonly.{Watchonly, maybe_create_wallet, maybe_load_wallet}

-- `f64`: `(x * 100000.0 + 1.0) as u64`, the hundred-thousandths of a number, `1.0`, `x as u32`, and the
-- comparison with 0.01.
pub record Float (F : Type 0) : Type 0 where
  pub rounded : F → ℕ
  pub hundred_thousandths : ℕ → F
  pub one : F
  pub as_u32 : F → ℕ
  pub is_below_hundredth : F → Bool

-- The progress of bitcoind, the seconds to wait, and the time of the last poll.
pub record Progress (F : Type 0) : Type 0 where
  pub sync_progress : F
  pub sync_waittime : Option ℕ
  pub last_poll : Option ℕ

-- What the n-th round finds: whether the daemon is shut down, the time, and the wallet file.
pub record Round : Type 0 where
  pub is_shutdown : Bool
  pub now : ℕ
  pub watchonly : Watchonly

-- An error of the wallet gets a text around it; a panic is none.
abbrev pub in_custom : Custom → Res (Unit {0}) × World → Res (Unit {0}) × World
in_custom c (ok u, w) = (ok u, w)
in_custom c (err panic, w) = (err panic, w)
in_custom c (err still_running, w) = (err still_running, w)
in_custom c (err e, w) = (err (custom c), w)

module _ {F : Type 0} (float : Float F) (node : Node F) where
  unfoldable pub roundup_progress : F → F
  roundup_progress progress =
      if leb 100_000 (float.rounded progress)
      then float.one
      else float.hundred_thousandths (float.rounded progress)

  -- The wait on the first poll while bitcoind gathers headers, and the later one by what is left.
  abbrev pub waittime : Network → Bool → SyncInfo F → ℕ
  waittime network first_poll info =
      if first_poll && (info.ibd && float.is_below_hundredth info.progress)
      then elim network [ regtest ↦ 3 | _ ↦ 5 * 60 ]
      else max ((info.headers - info.blocks) / 20 / 2) 5

  abbrev pub is_none : Option ℕ → Bool
  is_none none = true
  is_none (some _) = false

  abbrev pub with_info : Network → Progress F → SyncInfo F → Run (Progress F)
  with_info network p info = return (record p {
    sync_progress = roundup_progress info.progress;
    sync_waittime = some (waittime network (is_none p.sync_waittime) info);
  })

  unfoldable pub bitcoind_sync_status : Network → Progress F → Run (Progress F)
  unfolding synchronization_info roundup_progress
  bitcoind_sync_status network p = synchronization_info node >>= with_info network p

  -- `now.duration_since(last) < waittime`
  abbrev pub is_early : ℕ → Option ℕ → Option ℕ → Bool
  is_early now (some last) (some wait) = ltb (now - last) wait
  is_early now _ _ = false

  abbrev pub is_synced : F → Bool
  is_synced progress = leb 1 (float.as_u32 progress)

  unfoldable pub load_wallet : Watchonly → ℕ → Run (Unit {0})
  unfolding maybe_create_wallet maybe_load_wallet
  load_wallet watchonly fuel =
      (λ w. in_custom creating_wallet (maybe_create_wallet node watchonly fuel w))
      >> (λ w. in_custom loading_wallet (maybe_load_wallet node watchonly w))

  -- Once bitcoind is synced, the wallet is created or loaded.
  abbrev pub after_status : Watchonly → ℕ → ℕ → Progress F → Run (Progress F)
  after_status watchonly fuel now p =
      (if is_synced p.sync_progress then load_wallet watchonly fuel else return tt)
      >> return (record p { last_poll = some now })

  unfoldable pub update_sync_status : Network → Watchonly → ℕ → ℕ → Progress F → Run (Progress F)
  unfolding bitcoind_sync_status load_wallet
  update_sync_status network watchonly fuel now p =
      if is_early now p.last_poll p.sync_waittime
      then return p
      else (bitcoind_sync_status network p >>= after_status watchonly fuel now)

  module _ (setup : Setup) (wallet : Wallet) (rpc : Rpc) (network : Network) where
    -- The poll of the chain and then of the coins.
    unfoldable pub poll : ℕ → Run (Unit {0})
    unfolding update_tip update_utxos
    poll fuel = update_tip rpc wallet setup.min_conf fuel >>= λ previous_tip.
        update_utxos setup wallet rpc previous_tip

    -- `if now.duration_since(last_poll) < poll_interval`
    abbrev pub is_recent : ℕ → ℕ → Option ℕ → Bool
    is_recent poll_interval now none = false
    is_recent poll_interval now (some last) = ltb (now - last) poll_interval

    -- One round of the loop.
    unfoldable pub one_round : ℕ → ℕ → Round → Progress F → Run (Progress F)
    unfolding update_sync_status poll
    one_round poll_interval fuel round p =
        if not (is_synced p.sync_progress)
        then update_sync_status network round.watchonly fuel round.now p
        else if is_recent poll_interval round.now p.last_poll
        then return p
        else (poll fuel >> return (record p { last_poll = some round.now }))

    -- The loop runs until it finds the shutdown flag, with fuel for each round.
    unfoldable pub poller_main : ℕ → (ℕ → Round) → ℕ → ℕ → Progress F → Run (Unit {0})
    unfolding one_round
    poller_main poll_interval rounds zero n p = fail still_running
    poller_main poll_interval rounds (suc fuel) n p =
        let next = poller_main poll_interval rounds fuel (suc n) in
        if (rounds n).is_shutdown
        then return tt
        else (one_round poll_interval fuel (rounds n) p >>= next)

    -- The thread starts with the caches of the database, and has not polled yet.
    unfoldable pub poller_thread : ℕ → (ℕ → Round) → ℕ → F → Run (Unit {0})
    unfolding poller_main populate_deposit_cache populate_unvaults_cache
    poller_thread poll_interval rounds fuel progress w =
        poller_main poll_interval rounds fuel 0
          (record { sync_progress = progress; sync_waittime = none; last_poll = none })
          (record w {
            deposits_cache = populate_deposit_cache setup wallet w.db;
            unvaults_cache = populate_unvaults_cache setup wallet w.db;
          })
