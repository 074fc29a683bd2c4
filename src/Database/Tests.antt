-- ===== src/Database/Tests.antt =====
-- Runs of the database on small tables, and the theorems at such inputs.
mod Inserted
mod Restarted
use revaultd.Prelude.{
  ℕ, ◌+◌, ◌≡◌, ◌≢◌, ◌⊎◌, refl, Bool, true, false, none, some, [], ◌∷◌, map, length, leb, update, ok,
  err, arith, tables, ◌>>=◌,
}
use revaultd.Fault.{database, constraint_failed}
use revaultd.Status.{canceling, VaultStatus, unconfirmed, funded, secured, active}
use revaultd.Sigs.{SigMap, get, extend, insert}
use revaultd.Database.Schema.{
  OutPoint, Psbt, TransactionType, unvault, cancel, DbVault, DbTransaction, Db,
}
use revaultd.Database.Interface.{has_id, db_vault, db_vault_by_deposit}
use revaultd.Database.Deposits.{db_confirm_deposit, db_unconfirm_deposit_dbtx, with_unconfirmed}
use revaultd.Database.Deposits.RoundTrip.{db_unconfirm-db_confirm}
use revaultd.Database.Deposits.Reorged.{db_unconfirm_two_spends}
use revaultd.Database.Presigned.{with_sigs, db_update_presigned_tx}
use revaultd.Database.Marks.{
  db_mark_vault_as, db_status_from_unvault_txid, db_spend_unvault, with_status,
}
use revaultd.Database.Signing.{
  tx_row, CompletesUnvault, RevocationsSigned, db_update_presigned_tx-status,
  db_update_presigned_tx-secures,
}
use revaultd.Database.Signing.Merge.{IsMerge, db_update_presigned_tx-merges}
use revaultd.Database.Integrity.{IsSound}
use revaultd.Database.Integrity.Marks.{db_mark_vault_as-IsSound}

abbrev pub deposit : OutPoint
deposit = record { txid = 77; vout = 1 }

abbrev pub fresh_psbt : ℕ → Psbt
fresh_psbt txid = record {
  txid = txid;
  wtxid = txid;
  inputs = 1;
  is_finalized = false;
  partial_sigs = [];
}

abbrev pub vault_row : VaultStatus → DbVault
vault_row status = record {
  id = 1;
  wallet_id = 1;
  status = status;
  blockheight = 0;
  deposit_outpoint = deposit;
  amount = 500_000;
  derivation_index = 3;
  received_at = 10;
  updated_at = 10;
  spend_txid = none;
}

abbrev pub empty_db : Db
empty_db = record {
  now = 100;
  version = 0 ∷ [];
  tips = [];
  wallets = [];
  vaults = [];
  presigned = [];
  spend_inputs = [];
  spends = [];
}

abbrev unconfirmed_db : Db
unconfirmed_db = record empty_db { vaults = vault_row unconfirmed ∷ [] }

abbrev pub tx_of : ℕ → TransactionType → Bool → DbTransaction
tx_of id t signed = record {
  id = id;
  vault_id = 1;
  tx_type = t;
  psbt = fresh_psbt (200 + id);
  is_fully_signed = signed;
}

abbrev funded_db : Db
funded_db = record empty_db {
  vaults = vault_row funded ∷ [];
  presigned = tx_of 1 unvault false ∷ tx_of 2 cancel false ∷ [];
}

-- Two stakeholders must sign.
abbrev two_sigs : Psbt → Bool
two_sigs tx = leb 2 (length tx.partial_sigs)

abbrev both : SigMap
both = (5, 1 ∷ []) ∷ (6, 1 ∷ []) ∷ []

-- A confirmed deposit has its presigned transactions, with the ids 1 and 2.
confirm_stores :
    (db_confirm_deposit deposit 800 (fresh_psbt 201) (fresh_psbt 202) none none unconfirmed_db
      >>= λ d. ok (map (λ (r : DbTransaction). r.id) d.presigned))
    ≡ ok (1 ∷ 2 ∷ [])
unfolding db_confirm_deposit db_vault_by_deposit tables
confirm_stores = refl

confirmed_db : Db
confirmed_db = record unconfirmed_db {
  vaults =
      record (vault_row unconfirmed) { status = funded; blockheight = 800; updated_at = 100 } ∷ [];
  presigned = tx_of 1 unvault false ∷ tx_of 2 cancel false ∷ [];
}

confirm_result :
    db_confirm_deposit deposit 800 (fresh_psbt 201) (fresh_psbt 202) none none unconfirmed_db
    ≡ ok confirmed_db
unfolding db_confirm_deposit db_vault_by_deposit confirmed_db tables
confirm_result = refl

unconfirmed_db-IsSound : IsSound unconfirmed_db
unfolding tables
unconfirmed_db-IsSound = record {
  txs_have_vault = tt;
  inputs_have_tx = tt;
  inputs_have_spend = tt;
  unconfirmed_are_bare = ((λ e. refl), tt);
  spends_are_known = ((λ e. ground arith), tt);
}

db_unconfirm-db_confirm_example :
    db_unconfirm_deposit_dbtx 1 confirmed_db
    ≡ ok (record unconfirmed_db {
      vaults = update (has_id 1) (with_unconfirmed 100) (vault_row unconfirmed ∷ []);
    })
unfolding db_vault_by_deposit tables
db_unconfirm-db_confirm_example =
    db_unconfirm-db_confirm deposit 800 (fresh_psbt 201) (fresh_psbt 202) none none unconfirmed_db
      unconfirmed_db-IsSound refl refl confirm_result

abbrev contested_db : Db
contested_db = record funded_db {
  spend_inputs =
      record { id = 1; unvault_id = 1; spend_id = 8 }
      ∷ record { id = 2; unvault_id = 1; spend_id = 9 }
      ∷ [];
}

db_unconfirm_two_spends_example :
    db_unconfirm_deposit_dbtx 1 contested_db ≡ err (database constraint_failed)
unfolding tables
db_unconfirm_two_spends_example =
    db_unconfirm_two_spends 1 1 8 1 9 contested_db (λ e. ground arith) (refl, refl) (refl, refl)

-- The Unvault is already signed, so that the Cancel is the last one.
abbrev unvault_signed_db : Db
unvault_signed_db = record funded_db {
  presigned = tx_of 1 unvault true ∷ tx_of 2 cancel false ∷ [];
}

db_update_presigned_tx-secures_example :
    (db' : Db) × (db_update_presigned_tx two_sigs 1 2 both unvault_signed_db ≡ ok db')
    × (db_vault db' 1 ≡ some (with_status 100 secured (vault_row funded)))
unfolding db_vault tables
db_update_presigned_tx-secures_example =
    db_update_presigned_tx-secures two_sigs 1 2 both unvault_signed_db refl refl (λ e. ground arith)
      (unfold extend insert in refl) ((λ a b c. refl), ((λ a b c. ground arith), tt))

-- The key 5 has signed the Cancel, differently.
abbrev half_signed : DbTransaction
half_signed = record (tx_of 2 cancel false) {
  psbt = with_sigs ((5, 9 ∷ []) ∷ (4, 9 ∷ []) ∷ []) (fresh_psbt 202);
}

abbrev half_signed_db : Db
half_signed_db = record funded_db { presigned = tx_of 1 unvault false ∷ half_signed ∷ [] }

db_update_presigned_tx-merges_example :
    (db' : Db) × (db_update_presigned_tx two_sigs 1 2 both half_signed_db ≡ ok db')
    × ((r : DbTransaction) × (tx_row 2 db' ≡ some r) × IsMerge two_sigs both half_signed r)
    × ((u : ℕ) → u ≢ 2 → tx_row u db' ≡ tx_row u half_signed_db)
    × ((j : ℕ) → j ≢ 1 → db_vault db' j ≡ db_vault half_signed_db j)
db_update_presigned_tx-merges_example =
    db_update_presigned_tx-merges two_sigs 1 2 both half_signed_db {r = half_signed}
      (unfold get in (refl, (refl, tt))) (unfold tables in refl)

abbrev secured_row : DbVault
secured_row = with_status 100 secured (vault_row funded)

abbrev secured_db : Db
secured_db = record funded_db {
  vaults = secured_row ∷ [];
  presigned =
      tx_of 1 unvault true
      ∷ record (tx_of 2 cancel true) { psbt = with_sigs both (fresh_psbt 202) }
      ∷ [];
}

db_update_presigned_tx-status_example :
    ((secured ≡ active) × CompletesUnvault two_sigs 2 both unvault_signed_db)
    ⊎ ((secured ≡ secured) × RevocationsSigned 1 secured_db)
unfolding db_update_presigned_tx db_vault tables
db_update_presigned_tx-status_example =
    db_update_presigned_tx-status two_sigs 1 2 both unvault_signed_db {db' = secured_db}
      {v = vault_row funded} {v' = secured_row} (unfold extend insert in refl) refl refl
      (λ e. ground arith)

confirmed_db-IsSound : IsSound confirmed_db
unfolding tables confirmed_db
confirmed_db-IsSound = record {
  txs_have_vault = (refl, (refl, tt));
  inputs_have_tx = tt;
  inputs_have_spend = tt;
  unconfirmed_are_bare = ((λ e. ground arith), tt);
  spends_are_known = ((λ e. ground arith), tt);
}
