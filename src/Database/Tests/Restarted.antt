-- ===== src/Database/Tests/Restarted.antt =====
-- The daemon starts, sees a deposit and two blocks, takes the next address, and starts again.
use revaultd.Prelude.{◌≡◌, refl, ok, none, some, [], ◌∷◌, tables, arith}
use revaultd.Status.{unconfirmed}
use revaultd.Database.Schema.{BlockchainTip, Db}
use revaultd.Database.Deposits.{db_insert_new_unconfirmed_vault}
use revaultd.Database.Integrity.Reachable.{insert_vault}
use revaultd.Database.Startup.{Revaultd, created, setup_db}
use revaultd.Database.Marks.{db_update_tip, db_update_deposit_index}
use revaultd.Database.Startup.Restart.{
  Running, no_statement, statement, moves_tip, moves_index, started, setup_db-again,
}
use revaultd.Database.Tests.{deposit, vault_row}

abbrev daemon : Revaultd
daemon = record {
  network = 3;
  deposit_descriptor = 11;
  unvault_descriptor = 12;
  cpfp_descriptor = 13;
  our_man_xpub = none;
  our_stk_xpub = some 7;
  tip = none;
  current_unused_index = 0;
  derivation_index_map = [];
  wallet_id = none;
}

abbrev deposited_db : Db
deposited_db = record (created daemon 100) { vaults = vault_row unconfirmed ∷ [] }

abbrev tip : BlockchainTip
tip = record { height = 2; hash = 77 }

-- The index is 1 then, and the tip at the height 2.
abbrev stopped : Running
stopped = record {
  index = 1;
  tip = tip;
  db = db_update_deposit_index 1 (db_update_tip tip deposited_db);
}

inserted :
    db_insert_new_unconfirmed_vault 1 deposit 500_000 3 10 (created daemon 100) ≡ ok deposited_db
unfolding db_insert_new_unconfirmed_vault tables
inserted = refl

setup_db-again_example :
    (setup_db (λ n. n) daemon (some 100) none
      ≡ ok (started (λ n. n) daemon 0 (record { height = 0; hash = 0 }), created daemon 100))
    × (setup_db (λ n. n) daemon none (some stopped.db)
        ≡ ok (started (λ n. n) daemon 1 tip, stopped.db))
setup_db-again_example =
    setup_db-again (λ n. n) daemon 100 stopped none (omega arith)
      (moves_index 1
        (moves_tip tip (statement no_statement (insert_vault 1 deposit 500_000 3 10 inserted))))
