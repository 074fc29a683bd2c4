-- ===== src/Database/Spends.antt =====
-- src/daemon/database/actions.rs: the Spend transactions that managers prepare.
use mathlib.Core.List.{head?}
use mathlib.Core.Option
use revaultd.Prelude.{
  ℕ, Bool, true, false, not, Option, none, some, List, [], ◌∷◌, ◌++◌, map, ◌==◌, ◌&&◌,
  if◌then◌else◌, select, update, delete, exists, pop, ok, guard, ◌>>◌,
}
use revaultd.Fault.{Res, database, constraint_failed}
use revaultd.Database.Schema.{Txid, DbTransaction, DbSpendInput, SpendPsbt, DbSpendTransaction, Db}
use revaultd.Database.Deposits.{next_id}

abbrev pub has_spend_txid : Txid → DbSpendTransaction → Bool
has_spend_txid txid s = s.psbt.txid == txid

abbrev pub spend_ids : Db → List ℕ
spend_ids db = map (λ (s : DbSpendTransaction). s.id) db.spends

abbrev pub input_ids : List DbSpendInput → List ℕ
input_ids inputs = map (λ (i : DbSpendInput). i.id) inputs

-- `for unvault_tx in unvault_txs`: one input for each, with the foreign key to the transaction.
unfoldable pub insert_inputs : ℕ → List DbTransaction → Db → Res Db
unfolding next_id
insert_inputs spend_id [] db = ok db
insert_inputs spend_id (u ∷ us) db = do
  guard (database constraint_failed) (exists (λ (r : DbTransaction). r.id == u.id) db.presigned)
  insert_inputs spend_id us (record db {
    spend_inputs =
        db.spend_inputs
        ++ record {
          id = next_id (input_ids db.spend_inputs);
          unvault_id = u.id;
          spend_id = spend_id;
        }
          ∷ [];
  })

unfoldable pub db_insert_spend : List DbTransaction → SpendPsbt → Db → Res Db
unfolding next_id insert_inputs
db_insert_spend unvault_txs spend_tx db = do
  guard (database constraint_failed) (not (exists (has_spend_txid spend_tx.txid) db.spends))
  let spend_id = next_id (spend_ids db)
  insert_inputs spend_id unvault_txs (record db {
    spends = db.spends ++ record { id = spend_id; psbt = spend_tx; broadcasted = none } ∷ [];
  })

abbrev pub with_spend_psbt : SpendPsbt → DbSpendTransaction → DbSpendTransaction
with_spend_psbt tx s = record s { psbt = tx }

unfoldable pub db_update_spend : SpendPsbt → Db → Db
db_update_spend spend_tx db = record db {
  spends = update (has_spend_txid spend_tx.txid) (with_spend_psbt spend_tx) db.spends;
}

-- `(SELECT id FROM spend_transactions WHERE txid = (?1))`
unfoldable pub spend_id_of : Txid → Db → Option ℕ
spend_id_of txid db =
    Option.map (λ (s : DbSpendTransaction). s.id) (head? (select (has_spend_txid txid) db.spends))

unfoldable pub delete_inputs_of : Option ℕ → Db → Db
delete_inputs_of none db = db
delete_inputs_of (some spend_id) db = record db {
  spend_inputs = delete (λ (i : DbSpendInput). i.spend_id == spend_id) db.spend_inputs;
}

-- The deletion of the Spend cascades too, to inputs that the first statement has already deleted.
unfoldable pub db_delete_spend : Txid → Db → Db
unfolding spend_id_of delete_inputs_of
db_delete_spend spend_txid db =
    let db1 = delete_inputs_of (spend_id_of spend_txid db) db in
    record db1 { spends = delete (has_spend_txid spend_txid) db1.spends }

abbrev pub with_broadcasted : Bool → DbSpendTransaction → DbSpendTransaction
with_broadcasted b s = record s { broadcasted = some b }

unfoldable pub db_mark_broadcastable_spend : Txid → Db → Db
db_mark_broadcastable_spend spend_txid db = record db {
  spends = update (has_spend_txid spend_txid) (with_broadcasted false) db.spends;
}

unfoldable pub db_mark_broadcasted_spend : Txid → Db → Db
db_mark_broadcasted_spend spend_txid db = record db {
  spends = update (has_spend_txid spend_txid) (with_broadcasted true) db.spends;
}

abbrev pub is_broadcasted : DbSpendTransaction → Bool
is_broadcasted s = elim s.broadcasted [ none ↦ false | some b ↦ b ]

abbrev pub is_pending : DbSpendTransaction → Bool
is_pending s = elim s.broadcasted [ none ↦ false | some b ↦ not b ]

-- The Spends of the join of `db_mark_rebroadcastable_spend`: an input of theirs is the Unvault, and
-- they were broadcasted.
unfoldable pub broadcasted_of :
    Txid → List DbSpendInput → List DbTransaction → List DbSpendTransaction → List ℕ
broadcasted_of txid [] txs spends = []
broadcasted_of txid (i ∷ is) txs spends =
    let rest = broadcasted_of txid is txs spends in
    if exists (λ (r : DbTransaction). r.id == i.unvault_id && r.psbt.txid == txid) txs
    then map (λ (s : DbSpendTransaction). s.id)
        (select (λ s. s.id == i.spend_id && is_broadcasted s) spends)
      ++ rest
    else rest

abbrev pub set_broadcastable : Option ℕ → List DbSpendTransaction → List DbSpendTransaction
set_broadcastable none spends = spends
set_broadcastable (some spend_id) spends =
    update (λ (s : DbSpendTransaction). s.id == spend_id) (with_broadcasted false) spends

unfoldable pub db_mark_rebroadcastable_spend : Txid → Db → Db
unfolding broadcasted_of
db_mark_rebroadcastable_spend unvault_txid db = record db {
  spends =
      set_broadcastable (head? (broadcasted_of unvault_txid db.spend_inputs db.presigned db.spends))
        db.spends;
}

-- src/daemon/database/interface.rs
unfoldable pub db_broadcastable_spend_transactions : Db → List DbSpendTransaction
db_broadcastable_spend_transactions db = select is_pending db.spends

unfoldable pub db_spend_transaction : Db → Txid → Option DbSpendTransaction
db_spend_transaction db spend_txid = pop (select (has_spend_txid spend_txid) db.spends)
