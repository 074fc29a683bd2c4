-- ===== src/Poller/Setup/Populated.antt =====
-- src/daemon/bitcoind/utils.rs: the cache of deposits that is loaded at startup is that of the
-- database.
use mathlib.Core.Option
use revaultd.Prelude.{
  ◌≡◌, refl, arith, Option, none, some, List, [], ◌∷◌, select, pop, Bool-cases, inl, inr,
}
use revaultd.Database.Schema.{OutPoint, DbVault, Db}
use revaultd.Database.Interface.{at_deposit, db_deposits}
use revaultd.Cache.{UtxoInfo, Cache, get, insert}
use revaultd.Cache.Laws.{get-insert}
use revaultd.Poller.Wallet.{Wallet}
use revaultd.Poller.Setup.{Setup, deposit_info, load_deposits, populate_deposit_cache}

module _ (setup : Setup) (wallet : Wallet) where
  abbrev or_else : Option UtxoInfo → Option UtxoInfo → Option UtxoInfo
  or_else none d = d
  or_else (some i) d = some i

  or_none : {a : Option UtxoInfo} {o : Option UtxoInfo} → a ≡ or_else o none → a ≡ o
  or_none {o = none} e = e
  or_none {o = some i} e = e

  load_deposits-get :
      (vs : List DbVault) (cache : Cache) (o : OutPoint)
      → get (load_deposits setup wallet vs cache) o
        ≡ or_else
            (Option.map (deposit_info setup wallet) (pop (select (at_deposit o) vs)))
            (get cache o)
  unfolding load_deposits select pop
  load_deposits-get [] cache o = refl
  load_deposits-get (v ∷ vs) cache o = elim (Bool-cases (at_deposit o v)) [
    | inl e ↦ ground (
      arith,
      e,
      load_deposits-get vs (insert v.deposit_outpoint (deposit_info setup wallet v) cache) o,
      get-insert v.deposit_outpoint o (deposit_info setup wallet v) cache,
    )
    | inr e ↦ ground (
      arith,
      e,
      load_deposits-get vs (insert v.deposit_outpoint (deposit_info setup wallet v) cache) o,
      get-insert v.deposit_outpoint o (deposit_info setup wallet v) cache,
    )
  ]

  -- The cache of deposits that is filled at startup binds an outpoint exactly if the database has a
  -- vault there with a status up to 'active', to what the last such vault says: its amount, its
  -- script, and whether it is confirmed.
  pub populate_deposit_cache-get :
      (db : Db) (o : OutPoint)
      → get (populate_deposit_cache setup wallet db) o
        ≡ Option.map (deposit_info setup wallet) (pop (select (at_deposit o) (db_deposits db)))
  unfolding populate_deposit_cache get
  populate_deposit_cache-get db o = or_none (load_deposits-get (db_deposits db) [] o)
