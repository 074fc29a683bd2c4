-- ===== src/Database/Integrity/Presigned.antt =====
-- src/daemon/database/actions.rs: the integrity of the tables after signatures were stored.
use revaultd.Prelude.{
  ℕ, ◌≡◌, ◌≢◌, ◌∙◌, refl, subst, arith, Bool, true, false, ok, ok_or-eq-ok, select, update, exists,
  exists-update, All-update, All-imp, if◌then◌else◌,
}
use mathlib.Core.List.{head?}
use revaultd.Fault.{database, transaction_not_found}
use revaultd.Status.{VaultStatus, unconfirmed, spending, spent, secured, active}
use revaultd.Sigs.{SigMap}
use revaultd.Database.Schema.{Psbt, type_eq, unvault, DbVault, DbTransaction, DbSpendInput, Db}
use revaultd.Database.Marks.{with_status}
use revaultd.Database.Interface.{has_id}
use revaultd.Database.Deposits.{of_vault}
use revaultd.Database.Presigned.{
  has_tx_id, with_sigs, with_psbt, unsigned_revocation, set_status, upgrade_status,
  revault_tx_merge_sigs, db_update_presigned_tx,
}
use revaultd.Database.Integrity.{IsSound}
use revaultd.Database.Integrity.Inserts.{ok_inj}
use revaultd.Database.Integrity.Marks.{update-IsSound, settled}

-- The rows keep their ids and their vaults.
with_psbt-IsSound :
    (q : DbTransaction → Bool) (tx : Psbt) (signed : Bool) (db : Db)
    → IsSound db
    → IsSound (record db { presigned = update q (with_psbt tx signed) db.presigned })
with_psbt-IsSound q tx signed db s = record {
  txs_have_vault = All-update _ q (with_psbt tx signed) db.presigned (λ r e h. h) s.txs_have_vault;
  inputs_have_tx =
      All-imp
        (λ (i : DbSpendInput) e.
          exists-update (has_tx_id i.unvault_id) q (with_psbt tx signed) db.presigned (λ r. refl)
          ∙ e)
        db.spend_inputs s.inputs_have_tx;
  inputs_have_spend = s.inputs_have_spend;
  unconfirmed_are_bare =
      All-imp
        {Q = λ (v : DbVault).
          v.status ≡ unconfirmed
          → exists (of_vault v.id) (update q (with_psbt tx signed) db.presigned) ≡ false}
        (λ (v : DbVault) h e.
          exists-update (of_vault v.id) q (with_psbt tx signed) db.presigned (λ r. refl) ∙ h e)
        db.vaults s.unconfirmed_are_bare;
  spends_are_known = s.spends_are_known;
}

-- Whichever branch is taken.
either-IsSound : (b : Bool) (x y : Db) → IsSound x → IsSound y → IsSound (if b then x else y)
either-IsSound true x y hx hy = hx
either-IsSound false x y hx hy = hy

set_status-IsSound :
    (k : ℕ) (status : VaultStatus) (db : Db)
    → status ≢ unconfirmed
    → status ≢ spending
    → status ≢ spent
    → IsSound db
    → IsSound (set_status k status db)
set_status-IsSound k status db a b c s =
    update-IsSound (has_id k) (with_status db.now status) db (λ v j. refl) (λ v. a)
      (settled status a b c) s

upgrade_status-IsSound :
    (k : ℕ) (is_unvault : Bool) (db : Db) → IsSound db → IsSound (upgrade_status k is_unvault db)
unfolding upgrade_status
upgrade_status-IsSound k is_unvault db s =
    let at_least =
      either-IsSound (exists (unsigned_revocation k) db.presigned) db (set_status k secured db) s (
        set_status-IsSound k secured db (λ e. ground arith) (λ e. ground arith) (λ e. ground arith)
          s) in
    either-IsSound is_unvault _ _
      (set_status-IsSound k active _ (λ e. ground arith) (λ e. ground arith) (λ e. ground arith)
        at_least)
      at_least

-- Storing signatures keeps the tables sound, whatever the status of the vault.
pub db_update_presigned_tx-IsSound :
    (is_finalizable : Psbt → Bool) (k t : ℕ) (sigs : SigMap) (db : Db) {db' : Db}
    → db_update_presigned_tx is_finalizable k t sigs db ≡ ok db'
    → IsSound db
    → IsSound db'
unfolding db_update_presigned_tx revault_tx_merge_sigs
db_update_presigned_tx-IsSound is_finalizable k t sigs db {db'} h s =
    let (r, _, h1) =
      ok_or-eq-ok (database transaction_not_found) (head? (select (has_tx_id t) db.presigned)) _
        h in
    let stored =
      with_psbt-IsSound (has_tx_id t) (with_sigs sigs r.psbt)
        (is_finalizable (with_sigs sigs r.psbt)) db s in
    subst IsSound (ok_inj refl h1) (
      either-IsSound (is_finalizable (with_sigs sigs r.psbt)) _ _
        (upgrade_status-IsSound k (type_eq r.tx_type unvault) _ stored) stored)
