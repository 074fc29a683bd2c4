-- ===== src/Database/Integrity/Reachable.antt =====
-- src/daemon/database/actions.rs: the databases that the statements on deposits, vault statuses,
-- signatures and Spends lead to, from one whose tables of vaults, transactions and Spends are empty.
use revaultd.Prelude.{
  ℕ, ◌≡◌, ◌≢◌, ◌∙◌, refl, arith, Bool, Option, List, [], ok, All-imp, exists-update, update, inl,
  inr,
}
use revaultd.Status.{VaultStatus, unconfirmed, spending, spent, securing, activating}
use revaultd.Database.Schema.{
  Txid, OutPoint, Psbt, SpendPsbt, DbVault, DbTransaction, DbSpendInput, DbSpendTransaction, Db,
}
use revaultd.Database.Marks.{
  with_status, dbtx_downgrade, db_status_from_unvault_txid, db_spend_unvault, db_mark_vault_as,
  db_mark_securing_vault, db_mark_activating_vault, db_mark_spent_unvault, db_unconfirm_spend_dbtx,
}
use revaultd.Database.Deposits.{
  db_insert_new_unconfirmed_vault, db_confirm_deposit, db_unconfirm_deposit_dbtx,
}
use revaultd.Database.Interface.{has_id}
use revaultd.Database.Spends.{
  has_spend_txid, with_spend_psbt, db_insert_spend, db_update_spend, db_mark_broadcastable_spend,
  db_mark_broadcasted_spend,
}
use revaultd.Database.Integrity.{IsSound, has_spend_id}
use revaultd.Database.Integrity.Marks.{
  update-IsSound, settled, HasStatus, settles-IsSound, db_mark_vault_as-IsSound,
}
use revaultd.Database.Integrity.Inserts.{
  db_insert_new_unconfirmed_vault-IsSound, db_confirm_deposit-IsSound, db_insert_spend-IsSound,
}
use revaultd.Database.Integrity.Presigned.{db_update_presigned_tx-IsSound}
use revaultd.Database.Presigned.{db_update_presigned_tx}
use revaultd.Sigs.{SigMap}
use revaultd.Database.Integrity.Unconfirmed.{db_unconfirm_deposit-IsSound}

-- A status that a mark may give without more: one that needs no Spend and has transactions. The poller
-- confirms a Spend for the vaults in 'spending' only, and takes it back for those in 'spent'.
abbrev pub IsPlain : VaultStatus → Type 0
IsPlain status = (status ≢ unconfirmed) × (status ≢ spending) × (status ≢ spent)

-- One statement, with its result.
pub data Statement (db : Db) : Db → Type 0 where
  insert_vault :
      (wallet_id : ℕ) (outpoint : OutPoint) (amount index received : ℕ) {db' : Db}
      → db_insert_new_unconfirmed_vault wallet_id outpoint amount index received db ≡ ok db'
      → Statement db db'
  confirm_deposit :
      (outpoint : OutPoint) (height : ℕ) (u c : Psbt) (e f : Option Psbt) {db' : Db}
      → db_confirm_deposit outpoint height u c e f db ≡ ok db'
      → Statement db db'
  unconfirm_deposit :
      (vault_id : ℕ) {db' : Db} → db_unconfirm_deposit_dbtx vault_id db ≡ ok db' → Statement db db'
  mark_vault :
      (vault_id : ℕ) (status : VaultStatus)
      → IsPlain status
      → Statement db (db_mark_vault_as vault_id status db)
  mark_unvault :
      (txid : Txid) (status : VaultStatus)
      → IsPlain status
      → Statement db (db_status_from_unvault_txid txid status db)
  downgrade :
      (vault_id : ℕ) (status : VaultStatus)
      → IsPlain status
      → Statement db (dbtx_downgrade vault_id status db)
  mark_securing : (vault_id : ℕ) → Statement db (db_mark_securing_vault vault_id db)
  mark_activating : (vault_id : ℕ) → Statement db (db_mark_activating_vault vault_id db)
  mark_spent :
      (vault_id : ℕ)
      → HasStatus vault_id spending db
      → Statement db (db_mark_spent_unvault vault_id db)
  unconfirm_spend :
      (vault_id : ℕ)
      → HasStatus vault_id spent db
      → Statement db (db_unconfirm_spend_dbtx vault_id db)
  spend_unvault :
      (unvault_txid spend_txid : Txid) → Statement db (db_spend_unvault unvault_txid spend_txid db)
  update_presigned :
      (is_finalizable : Psbt → Bool) (vault_id tx_db_id : ℕ) (sigs : SigMap) {db' : Db}
      → db_update_presigned_tx is_finalizable vault_id tx_db_id sigs db ≡ ok db'
      → Statement db db'
  insert_spend :
      (unvault_txs : List DbTransaction) (tx : SpendPsbt) {db' : Db}
      → db_insert_spend unvault_txs tx db ≡ ok db'
      → Statement db db'
  update_spend : (tx : SpendPsbt) → Statement db (db_update_spend tx db)
  mark_broadcastable : (txid : Txid) → Statement db (db_mark_broadcastable_spend txid db)
  mark_broadcasted : (txid : Txid) → Statement db (db_mark_broadcasted_spend txid db)

-- From empty tables, by statements.
pub data Reachable : Db → Type 0 where
  start :
      (db : Db)
      → db.vaults ≡ []
      → db.presigned ≡ []
      → db.spend_inputs ≡ []
      → db.spends ≡ []
      → Reachable db
  later : {db db' : Db} → Reachable db → Statement db db' → Reachable db'

-- Vaults that a test selects get a plain status.
becomes-IsSound :
    (status : VaultStatus)
    → status ≢ unconfirmed
    → status ≢ spending
    → status ≢ spent
    → (q : DbVault → Bool) (db : Db) → IsSound db
    → IsSound (record db { vaults = update q (with_status db.now status) db.vaults })
becomes-IsSound st a b c q db s =
    update-IsSound q (with_status db.now st) db (λ v j. refl) (λ v. a) (settled st a b c) s

-- A change of Spends that keeps their ids.
spends-IsSound :
    (q : DbSpendTransaction → Bool) (f : DbSpendTransaction → DbSpendTransaction) (db : Db)
    → ((x : DbSpendTransaction) (k : ℕ) → has_spend_id k (f x) ≡ has_spend_id k x)
    → IsSound db
    → IsSound (record db { spends = update q f db.spends })
spends-IsSound q f db h s = record {
  txs_have_vault = s.txs_have_vault;
  inputs_have_tx = s.inputs_have_tx;
  inputs_have_spend =
      All-imp
        (λ (i : DbSpendInput) e.
          exists-update (has_spend_id i.spend_id) q f db.spends (λ x. h x i.spend_id) ∙ e)
        db.spend_inputs s.inputs_have_spend;
  unconfirmed_are_bare = s.unconfirmed_are_bare;
  spends_are_known = s.spends_are_known;
}

Statement-IsSound : {db db' : Db} → Statement db db' → IsSound db → IsSound db'
unfolding db_mark_vault_as db_mark_spent_unvault db_unconfirm_spend_dbtx dbtx_downgrade
    db_mark_securing_vault db_mark_activating_vault db_update_spend db_mark_broadcastable_spend
    db_mark_broadcasted_spend
Statement-IsSound {db} (insert_vault w o a i r e) s =
    db_insert_new_unconfirmed_vault-IsSound w o a i r db e s
Statement-IsSound {db} (confirm_deposit o n u c e f h) s =
    db_confirm_deposit-IsSound o n u c e f db h s
Statement-IsSound {db} (unconfirm_deposit k h) s = db_unconfirm_deposit-IsSound k db h s
Statement-IsSound {db} (mark_vault k st (a, b, c)) s =
    (db_mark_vault_as-IsSound st a b c db k 0 0 s).0
Statement-IsSound {db} (mark_unvault t st (a, b, c)) s =
    (db_mark_vault_as-IsSound st a b c db 0 t 0 s).1
Statement-IsSound {db} (downgrade k st (a, b, c)) s = becomes-IsSound st a b c (has_id k) db s
Statement-IsSound {db} (mark_securing k) s =
    becomes-IsSound securing (λ e. ground arith) (λ e. ground arith) (λ e. ground arith) _ db s
Statement-IsSound {db} (mark_activating k) s =
    becomes-IsSound activating (λ e. ground arith) (λ e. ground arith) (λ e. ground arith) _ db s
Statement-IsSound {db} (mark_spent k h) s =
    settles-IsSound k spending spent db (inl refl) (λ e. ground arith) h s
Statement-IsSound {db} (unconfirm_spend k h) s =
    settles-IsSound k spent spending db (inr refl) (λ e. ground arith) h s
Statement-IsSound {db} (spend_unvault u t) s =
    (db_mark_vault_as-IsSound securing (λ e. ground arith) (λ e. ground arith) (λ e. ground arith)
      db 0 u t s).2
Statement-IsSound {db} (update_presigned f k t sigs h) s =
    db_update_presigned_tx-IsSound f k t sigs db h s
Statement-IsSound {db} (insert_spend us tx h) s = db_insert_spend-IsSound us tx db h s
Statement-IsSound {db} (update_spend tx) s =
    spends-IsSound (has_spend_txid tx.txid) (with_spend_psbt tx) db (λ x k. refl) s
Statement-IsSound {db} (mark_broadcastable t) s =
    spends-IsSound (has_spend_txid t) _ db (λ x k. refl) s
Statement-IsSound {db} (mark_broadcasted t) s =
    spends-IsSound (has_spend_txid t) _ db (λ x k. refl) s

-- Whatever statements have run, one after the other: every presigned transaction is of a vault in the
-- database, every input of a Spend names a transaction and a Spend that are there, an unconfirmed
-- vault has no transaction, and a vault that is 'spending' or 'spent' has a Spend. A statement is an
-- insertion, confirmation or unconfirmation of a deposit that is not refused, the insertion of a Spend
-- that is not refused, a change of a Spend, the storing of signatures, the Spend of an Unvault, its
-- confirmation for a vault that is 'spending' or the way back for one that is 'spent', or a mark with a
-- status other than 'unconfirmed', 'spending' and 'spent'.
pub Reachable-IsSound : {db : Db} → Reachable db → IsSound db
Reachable-IsSound (start db v p i s) = record {
  txs_have_vault = rw p tt;
  inputs_have_tx = rw i tt;
  inputs_have_spend = rw i tt;
  unconfirmed_are_bare = rw v tt;
  spends_are_known = rw v tt;
}
Reachable-IsSound (later r st) = Statement-IsSound st (Reachable-IsSound r)
