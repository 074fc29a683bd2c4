-- ===== src/Database/Tests/Inserted.antt =====
-- A deposit is inserted and confirmed, and a Spend of it is prepared and broadcast.
use revaultd.Prelude.{◌≡◌, refl, ok, [], ◌∷◌, none, some, false, tables}
use revaultd.Status.{unconfirmed, funded}
use revaultd.Database.Schema.{unvault, cancel, SpendPsbt, Db}
use revaultd.Database.Interface.{db_vault_by_deposit}
use revaultd.Database.Marks.{has_tx, db_mark_spent_unvault, db_spend_unvault}
use revaultd.Database.Deposits.{db_insert_new_unconfirmed_vault, db_confirm_deposit}
use revaultd.Database.Spends.{db_insert_spend}
use revaultd.Database.Integrity.{IsSound}
use revaultd.Database.Integrity.Reachable.{
  Reachable, start, later, insert_vault, confirm_deposit, insert_spend, spend_unvault, mark_spent,
  Reachable-IsSound,
}
use revaultd.Database.Tests.{deposit, vault_row, fresh_psbt, empty_db, tx_of}

abbrev start_db : Db
start_db = record empty_db {
  wallets =
      record {
        id = 1;
        timestamp = 5;
        deposit_descriptor = 0;
        unvault_descriptor = 0;
        cpfp_descriptor = 0;
        our_man_xpub = none;
        our_stk_xpub = some 3;
        deposit_derivation_index = 0;
      }
      ∷ [];
}

-- with the deposit
abbrev inserted_db : Db
inserted_db = record start_db { vaults = vault_row unconfirmed ∷ [] }

-- with its transactions
abbrev stored_db : Db
stored_db = record start_db {
  vaults =
      record (vault_row unconfirmed) { status = funded; blockheight = 800; updated_at = 100 } ∷ [];
  presigned = tx_of 1 unvault false ∷ tx_of 2 cancel false ∷ [];
}

abbrev spend : SpendPsbt
spend = record { txid = 301; unvault_txids = 201 ∷ []; is_finalized = false; input_sigs = [] ∷ [] }

-- with a Spend
abbrev prepared_db : Db
prepared_db = record stored_db {
  spend_inputs = record { id = 1; unvault_id = 1; spend_id = 1 } ∷ [];
  spends = record { id = 1; psbt = spend; broadcasted = none } ∷ [];
}

inserts : db_insert_new_unconfirmed_vault 1 deposit 500_000 3 10 start_db ≡ ok inserted_db
unfolding db_insert_new_unconfirmed_vault tables
inserts = refl

confirms :
    db_confirm_deposit deposit 800 (fresh_psbt 201) (fresh_psbt 202) none none inserted_db
    ≡ ok stored_db
unfolding db_confirm_deposit db_vault_by_deposit tables
confirms = refl

prepares : db_insert_spend (tx_of 1 unvault false ∷ []) spend stored_db ≡ ok prepared_db
unfolding db_insert_spend tables
prepares = refl

prepared_db-Reachable : Reachable prepared_db
prepared_db-Reachable =
    later
      (later
        (later (start start_db refl refl refl refl) (insert_vault 1 deposit 500_000 3 10 inserts))
        (confirm_deposit deposit 800 (fresh_psbt 201) (fresh_psbt 202) none none confirms))
      (insert_spend (tx_of 1 unvault false ∷ []) spend prepares)

-- the Unvault spent, and the Spend confirmed
spent_db-Reachable : Reachable (db_mark_spent_unvault 1 (db_spend_unvault 201 301 prepared_db))
unfolding db_spend_unvault has_tx tables
spent_db-Reachable =
    later (later prepared_db-Reachable (spend_unvault 201 301)) (mark_spent 1 ((λ e. refl), tt))

Reachable-IsSound_example : IsSound (db_mark_spent_unvault 1 (db_spend_unvault 201 301 prepared_db))
Reachable-IsSound_example = Reachable-IsSound spent_db-Reachable
