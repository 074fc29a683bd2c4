-- ===== src/Poller/Reorg/Fuel.antt =====
-- src/daemon/bitcoind/poller.rs: the fuel of `comprehensive_rescan` is enough while bitcoind's tip
-- does not change.
use revaultd.Prelude.{
  ℕ, suc, ◌≡◌, ◌≢◌, ◌∙◌, sym, refl, Bool, true, false, List, [], ◌∷◌, if◌then◌else◌, ok, err,
}
use mathlib.Core.List.{reverse}
use revaultd.Fault.{Res}
use revaultd.Database.Schema.{DbVault, Db}
use revaultd.Database.Marks.{db_update_tip_dbtx}
use revaultd.Bitcoind.Run.{World, Run, after, return, exec}
use revaultd.Bitcoind.Client.{Rpc}
use revaultd.Poller.Wallet.{Wallet}
use revaultd.Poller.Reorg.{rescan_vault, rescan_vaults, stable_tip, comprehensive_rescan}
use revaultd.Poller.Reorg.Stages.{
  IsStable, tip_of, Finishes, done-Finishes, get_tip_lem, tip_eq_refl, rescan_vault-Finishes,
}

goes_on :
    (p : Res Bool × World) (rest : Run Bool)
    → p.0 ≢ ok false
    → Finishes rest
    → (after p (λ go. if go then rest else return false)).0 ≢ ok false
goes_on (err e, w) rest hp h = λ e'. cc
goes_on (ok true, w) rest hp h = h w
goes_on (ok false, w) rest hp h = absurd (hp refl)

-- What would follow a restart does not matter.
no_restart :
    (p : Res Bool × World) (last again again' : Run (Unit {0}))
    → p.0 ≢ ok false
    → after p (λ done. if done then last else again)
      ≡ after p (λ done. if done then last else again')
no_restart (err e, w) last again again' h = refl
no_restart (ok true, w) last again again' h = refl
no_restart (ok false, w) last again again' h = absurd (h refl)

module _ (rpc : Rpc) (wallet : Wallet) (min_conf count hash : ℕ)
    (stable : IsStable rpc count hash) where
  rescan_vaults-Finishes :
      (stored : Db) (vs : List DbVault)
      → Finishes (rescan_vaults rpc wallet min_conf stored (tip_of count hash) vs)
  unfolding rescan_vaults
  rescan_vaults-Finishes stored [] w = done-Finishes w
  rescan_vaults-Finishes stored (v ∷ vs) w =
      goes_on (rescan_vault rpc wallet min_conf stored (tip_of count hash) v w)
        (rescan_vaults rpc wallet min_conf stored (tip_of count hash) vs)
        (rescan_vault-Finishes rpc wallet min_conf count hash stable stored v w)
        (rescan_vaults-Finishes stored vs)

  stable_tip_lem :
      (n : ℕ) (w : World)
      → stable_tip rpc wallet min_conf (suc n) (tip_of count hash) w
        ≡ (ok (tip_of count hash), record w { requests = suc (suc w.requests) })
  unfolding stable_tip
  stable_tip_lem n w =
      rw
        (
          get_tip_lem rpc wallet min_conf count hash stable w,
          tip_eq_refl rpc wallet min_conf count hash stable,
        )
        refl

  -- The rest of a run, from the tip on.
  abbrev with_tip : Db → World → Run (Unit {0}) → Res (Unit {0}) × World
  with_tip stored w again =
      after
        (rescan_vaults rpc wallet min_conf stored (tip_of count hash) (reverse w.db.vaults)
          (record w { requests = suc (suc (suc (suc w.requests))) }))
        (λ done. if done then exec (db_update_tip_dbtx (tip_of count hash)) else again)

  one_turn :
      (stored : Db) (n : ℕ) (w : World)
      → comprehensive_rescan rpc wallet min_conf stored (suc n) w
        ≡ with_tip stored w (comprehensive_rescan rpc wallet min_conf stored n)
  unfolding comprehensive_rescan
  one_turn stored n w =
      rw
        (
          get_tip_lem rpc wallet min_conf count hash stable w,
          stable_tip_lem n (record w { requests = suc (suc w.requests) }),
        )
        refl

-- While bitcoind answers the same tip, `comprehensive_rescan` ends in its first turn: with any fuel
-- but 0 its result, the database, the caches and the number of requests are those of the fuel 1.
pub comprehensive_rescan-fuel :
    (rpc : Rpc) (wallet : Wallet) (min_conf count hash : ℕ)
    → IsStable rpc count hash
    → (stored : Db) (n : ℕ) (w : World)
    → comprehensive_rescan rpc wallet min_conf stored (suc n) w
      ≡ comprehensive_rescan rpc wallet min_conf stored 1 w
comprehensive_rescan-fuel rpc wallet min_conf count hash stable stored n w =
    one_turn rpc wallet min_conf count hash stable stored n w
    ∙ no_restart
        (rescan_vaults rpc wallet min_conf stored (tip_of count hash) (reverse w.db.vaults)
          (record w { requests = suc (suc (suc (suc w.requests))) }))
        (exec (db_update_tip_dbtx (tip_of count hash)))
        (comprehensive_rescan rpc wallet min_conf stored n)
        (comprehensive_rescan rpc wallet min_conf stored 0)
        (rescan_vaults-Finishes rpc wallet min_conf count hash stable stored (reverse w.db.vaults)
          (record w { requests = suc (suc (suc (suc w.requests))) }))
    ∙ sym (one_turn rpc wallet min_conf count hash stable stored 0 w)
