-- ===== src/Poller/Main/Waits.antt =====
-- src/daemon/bitcoind/poller.rs: nothing is polled before bitcoind is synced.
use revaultd.Prelude.{
  ℕ, zero, suc, ◌≡◌, ◌≢◌, ◌∙◌, refl, sym, subst, arith, false, Bool-cases, inl, inr, some, ok, err,
}
use revaultd.Fault.{Fault, Res}
use revaultd.Bitcoind.Run.{World, Run, after}
use revaultd.Bitcoind.Client.{Rpc}
use revaultd.Bitcoind.Wallets.{Network, Node, ChainInfo, SyncInfo, synchronization_info}
use revaultd.Poller.Wallet.{Wallet}
use revaultd.Poller.Setup.{Setup}
use revaultd.Poller.Watchonly.{Watchonly}
use revaultd.Poller.Main.{
  Float, Progress, Round, roundup_progress, is_synced, with_info, after_status,
  bitcoind_sync_status, update_sync_status, is_early, one_round, poller_main,
}

-- The database and the caches are the same.
abbrev pub IsSame : World → World → Type 0
IsSame w w' =
    (w'.db ≡ w.db) × (w'.deposits_cache ≡ w.deposits_cache) × (w'.unvaults_cache ≡ w.unvaults_cache)

IsSame-trans : (a b c : World) → IsSame a b → IsSame b c → IsSame a c
IsSame-trans a b c (x, y, z) (x', y', z') = (x' ∙ x, y' ∙ y, z' ∙ z)

module _ {F : Type 0} (float : Float F) (node : Node F) where
  -- What bitcoind says of its progress never rounds up to 1.
  abbrev pub NeverSynced : Type 0
  NeverSynced =
      (n : ℕ) (info : ChainInfo F) (progress : F)
      → node.getblockchaininfo n ≡ ok info
      → info.verificationprogress ≡ some progress
      → is_synced float node (roundup_progress float node progress) ≡ false

  -- What a routine that returns a progress has done: it is not synced, and nothing else changed.
  abbrev Waited : World → Res (Progress F) × World → Type 0
  Waited w (ok p, w') = (is_synced float node p.sync_progress ≡ false) × IsSame w w'
  Waited w (err e, w') = IsSame w w'

  asked : World → World
  asked w = record w { requests = suc w.requests }

  synchronization_info-asked : (w : World) → (synchronization_info node w).1 ≡ asked w
  unfolding synchronization_info asked
  synchronization_info-asked w = ground arith

  synchronization_info-progress :
      (w : World) (info : SyncInfo F) (c : ChainInfo F)
      → node.getblockchaininfo w.requests ≡ ok c
      → (synchronization_info node w).0 ≡ ok info
      → c.verificationprogress ≡ some info.progress
  unfolding synchronization_info
  synchronization_info-progress w info c e h = ground (arith, e, h)

  outcome :
      (w : World) (r : Res (SyncInfo F))
      → (synchronization_info node w).0 ≡ r
      → synchronization_info node w ≡ (r, asked w)
  outcome w r e = λ i. (e i, synchronization_info-asked w i)

  no_answer :
      (w : World) (info : SyncInfo F) (e : Fault)
      → node.getblockchaininfo w.requests ≡ err e
      → (synchronization_info node w).0 ≢ ok info
  unfolding synchronization_info
  no_answer w info e k h = ground (arith, k, h)

  module _ (never : NeverSynced) where
    sync_status-of :
        (network : Network) (p : Progress F) (w : World) (a : Res (ChainInfo F))
        (r : Res (SyncInfo F))
        → node.getblockchaininfo w.requests ≡ a
        → (synchronization_info node w).0 ≡ r
        → Waited w (bitcoind_sync_status float node network p w)
    unfolding bitcoind_sync_status asked
    sync_status-of network p w a (err e) k h =
        subst (λ r. Waited w (after r (with_info float node network p))) (sym (outcome w (err e) h))
          (refl, refl, refl)
    sync_status-of network p w (err e) (ok info) k h = absurd (no_answer w info e k h)
    sync_status-of network p w (ok c) (ok info) k h =
        subst (λ r. Waited w (after r (with_info float node network p)))
          (sym (outcome w (ok info) h))
          (
            never w.requests c info.progress k (synchronization_info-progress w info c k h),
            (refl, refl, refl),
          )

    update_sync_status-Waited :
        (network : Network) (watchonly : Watchonly) (fuel now : ℕ) (p : Progress F) (w : World)
        → is_synced float node p.sync_progress ≡ false
        → Waited w (update_sync_status float node network watchonly fuel now p w)
    unfolding update_sync_status
    update_sync_status-Waited network watchonly fuel now p w h =
        elim (Bool-cases (is_early float node now p.last_poll p.sync_waittime)) [
          | inl early ↦ rw early (h, (refl, refl, refl))
          | inr late ↦ rw late (
              then_waits (bitcoind_sync_status float node network p w) (
                sync_status-of network p w (node.getblockchaininfo w.requests)
                  (synchronization_info node w).0 refl refl))
        ]
      where
        then_waits :
            (r : Res (Progress F) × World)
            → Waited w r
            → Waited w (after r (after_status float node watchonly fuel now))
        then_waits (ok p', w') (unsynced, same) = rw unsynced (unsynced, same)
        then_waits (err e, w') same = same

    module _ (setup : Setup) (wallet : Wallet) (rpc : Rpc) (network : Network) (poll_interval : ℕ)
        (rounds : ℕ → Round) where
      -- Whatever the clock and the wallet file are: as long as the progress of bitcoind does not round
      -- up to 1, the poller, however many rounds it makes and however it ends, leaves the database and
      -- the caches as they are.
      pub poller_main-waits :
          (fuel n : ℕ) (p : Progress F) (w : World)
          → is_synced float node p.sync_progress ≡ false
          → IsSame w
              (poller_main float node setup wallet rpc network poll_interval rounds fuel n p w).1
      unfolding poller_main one_round
      poller_main-waits zero n p w h = (refl, refl, refl)
      poller_main-waits (suc fuel) n p w h = elim (Bool-cases (rounds n).is_shutdown) [
        | inl stop ↦ rw stop (refl, refl, refl)
        | inr on ↦
            rw (on, h)
              (then_same (poller_main-waits fuel (suc n))
                (update_sync_status float node network (rounds n).watchonly fuel (rounds n).now p w)
                (update_sync_status-Waited network (rounds n).watchonly fuel (rounds n).now p w h))
      ]
        where
          again : Progress F → Run (Unit {0})
          again = poller_main float node setup wallet rpc network poll_interval rounds fuel (suc n)

          then_same :
              ((p' : Progress F) (w' : World)
                → is_synced float node p'.sync_progress ≡ false
                → IsSame w' (again p' w').1)
              → (r : Res (Progress F) × World) → Waited w r
              → IsSame w (after r again).1
          then_same waits (ok p', w') (unsynced, same) =
              IsSame-trans w w' (again p' w').1 same (waits p' w' unsynced)
          then_same waits (err e, w') same = same
