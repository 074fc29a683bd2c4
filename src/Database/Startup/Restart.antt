-- ===== src/Database/Startup/Restart.antt =====
-- src/daemon/database/actions.rs: what `setup_db` makes of no database, and of the one that it made when
-- the daemon starts again.
use revaultd.Prelude.{
  ℕ, ◌^◌, ◌<◌, ◌≡◌, ◌∙◌, arith, Option, none, some, [], ◌∷◌, ok, pop, ◌>>◌, update, true, ap,
}
use revaultd.Fault.{Res}
use revaultd.Database.Schema.{BlockchainTip, DbWallet, TipRow, Db}
use revaultd.Database.Marks.{db_update_tip, db_update_tip_dbtx, db_update_deposit_index}
use revaultd.Database.Integrity.Reachable.{Statement}
use revaultd.Database.Startup.{
  Revaultd, created, insert_indices, end_index, create_db, check_db, state_from_db, setup_db,
}
use revaultd.Database.Startup.Kept.{SameSetup, SameSetup-refl, SameSetup-trans, Statement-SameSetup}

-- What the daemon has while it runs: the index from which the addresses are unused, the tip that it
-- has stored last, and the database.
pub record Running : Type 0 where
  pub index : ℕ
  pub tip : BlockchainTip
  pub db : Db

-- The daemon runs: statements, one after the other. A new tip and a new index are stored when they are
-- taken over.
pub data Run (a : Running) : Running → Type 0 where
  no_statement : Run a a
  statement : {b : Running} {d : Db} → Run a b → Statement b.db d → Run a (record b { db = d })
  moves_tip :
      {b : Running} (tip : BlockchainTip)
      → Run a b
      → Run a (record b { tip = tip; db = db_update_tip tip b.db })
  moves_index :
      {b : Running} (index : ℕ)
      → Run a b
      → Run a (record b { index = index; db = db_update_deposit_index index b.db })

module _ (deposit_script : ℕ → ℕ) (daemon : Revaultd) where
  abbrev checked : Db → Res Revaultd
  checked db = check_db daemon db >> state_from_db deposit_script daemon db

  checked-SameSetup : {a b : Db} → SameSetup a b → checked b ≡ checked a
  unfolding check_db state_from_db
  checked-SameSetup {a} s = λ i.
      checked
        (record a { version = s.same_version i; tips = s.same_tips i; wallets = s.same_wallets i })

  setup_db-checked :
      (clock : Option ℕ) (st : Revaultd) (db : Db)
      → checked db ≡ ok st
      → setup_db deposit_script daemon clock (some db) ≡ ok (st, db)
  unfolding setup_db
  setup_db-checked clock st db e = ground (arith, e)

  -- the state after a start that finds this index and this tip
  abbrev pub started : ℕ → BlockchainTip → Revaultd
  started index tip = record daemon {
    tip = some tip;
    current_unused_index = index;
    derivation_index_map =
        insert_indices deposit_script (end_index index) daemon.derivation_index_map;
    wallet_id = some 1;
  }

  abbrev pub no_tip : BlockchainTip
  no_tip = record { height = 0; hash = 0 }

  -- after the first start
  abbrev pub at_first : ℕ → Running
  at_first timestamp = record {
    index = daemon.current_unused_index;
    tip = no_tip;
    db = created daemon timestamp;
  }

  -- the rows of a start that finds this index and this tip
  abbrev rows : ℕ → ℕ → BlockchainTip → Db
  rows timestamp index tip =
      record (created (record daemon { current_unused_index = index }) timestamp) {
        tips = record { network = daemon.network; tip = tip } ∷ [];
      }

  checked-rows :
      (timestamp index : ℕ) (tip : BlockchainTip)
      → checked (rows timestamp index tip) ≡ ok (started index tip)
  unfolding check_db state_from_db pop
  checked-rows timestamp index tip = ground arith

  Run-SameSetup :
      (timestamp : ℕ) {b : Running}
      → Run (at_first timestamp) b
      → SameSetup (rows timestamp b.index b.tip) b.db
  unfolding db_update_tip db_update_tip_dbtx db_update_deposit_index update
  Run-SameSetup timestamp no_statement = SameSetup-refl (created daemon timestamp)
  Run-SameSetup timestamp (statement r st) =
      SameSetup-trans (Run-SameSetup timestamp r) (Statement-SameSetup st)
  Run-SameSetup timestamp (moves_tip tip r) =
      let s = Run-SameSetup timestamp r in
      record {
        same_version = s.same_version;
        same_tips = ap (update (λ _. true) (λ (t : TipRow). record t { tip = tip })) s.same_tips;
        same_wallets = s.same_wallets;
      }
  Run-SameSetup timestamp (moves_index index r) =
      let s = Run-SameSetup timestamp r in
      record {
        same_version = s.same_version;
        same_tips = s.same_tips;
        same_wallets =
            ap
              (update (λ _. true) (λ (w : DbWallet). record w { deposit_derivation_index = index }))
              s.same_wallets;
      }

  -- The first start makes a database that passes the checks. Whatever statements run then, on
  -- deposits, statuses, signatures and Spends, on the tip and on the deposit index, a later start with
  -- the same configuration accepts the database and leaves it, and has again the tip that was stored
  -- last and the index that the daemon had; with the scripts of all indices below this one plus the gap
  -- limit.
  pub setup_db-again :
      (timestamp : ℕ) (b : Running) (clock : Option ℕ)
      → timestamp < 2 ^ 32
      → Run (at_first timestamp) b
      → (setup_db deposit_script daemon (some timestamp) none
          ≡ ok (started daemon.current_unused_index no_tip, created daemon timestamp))
        × (setup_db deposit_script daemon clock (some b.db) ≡ ok (started b.index b.tip, b.db))
  unfolding setup_db create_db
  setup_db-again timestamp b clock h run = (
    ground (arith, h, checked-rows timestamp daemon.current_unused_index no_tip),
    setup_db-checked clock (started b.index b.tip) b.db
        (checked-SameSetup (Run-SameSetup timestamp run) ∙ checked-rows timestamp b.index b.tip),
  )
