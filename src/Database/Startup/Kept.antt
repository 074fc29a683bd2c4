-- ===== src/Database/Startup/Kept.antt =====
-- src/daemon/database/actions.rs: the statements that leave alone what a start reads.
use revaultd.Prelude.{
  ℕ, ◌≡◌, ◌∙◌, refl, sym, subst, arith, Option, none, some, List, [], ◌∷◌, ok, guard-eq-ok,
  ok_or-eq-ok, true, false, Bool, select, exists, if◌then◌else◌,
}
use revaultd.Database.Schema.{DbTransaction, Db, type_eq, unvault}
use revaultd.Status.{secured}
use revaultd.Database.Presigned.{
  has_tx_id, with_sigs, unsigned_revocation, set_status, upgrade_status, revault_tx_merge_sigs,
  db_update_presigned_tx,
}
use revaultd.Database.Interface.{db_vault_by_deposit}
use revaultd.Database.Deposits.{
  db_insert_new_unconfirmed_vault, db_confirm_deposit, db_unconfirm_deposit_dbtx, delete_spend_of,
  spend_ids_of,
}
use revaultd.Database.Deposits.Store.{store_all-Stores}
use revaultd.Database.Spends.{
  insert_inputs, db_insert_spend, db_update_spend, db_mark_broadcastable_spend,
  db_mark_broadcasted_spend,
}
use revaultd.Database.Marks.{
  db_mark_spent_unvault, db_unconfirm_spend_dbtx, dbtx_downgrade, db_status_from_unvault_txid,
  db_spend_unvault, db_mark_vault_as, db_mark_securing_vault, db_mark_activating_vault,
}
use revaultd.Database.Integrity.Inserts.{ok_inj}
use mathlib.Core.List.{head?}
use revaultd.Database.Integrity.Reachable.{
  Statement, insert_vault, confirm_deposit, unconfirm_deposit, mark_vault, mark_unvault, downgrade,
  mark_securing, mark_activating, update_presigned, mark_spent, unconfirm_spend, spend_unvault,
  insert_spend, update_spend, mark_broadcastable, mark_broadcasted,
}

-- The tables that a start reads.
pub record SameSetup (a b : Db) : Type 0 where
  pub same_version : b.version ≡ a.version
  pub same_tips : b.tips ≡ a.tips
  pub same_wallets : b.wallets ≡ a.wallets

pub SameSetup-refl : (a : Db) → SameSetup a a
SameSetup-refl a = record { same_version = refl; same_tips = refl; same_wallets = refl }

pub SameSetup-trans : {a b c : Db} → SameSetup a b → SameSetup b c → SameSetup a c
SameSetup-trans s t = record {
  same_version = t.same_version ∙ s.same_version;
  same_tips = t.same_tips ∙ s.same_tips;
  same_wallets = t.same_wallets ∙ s.same_wallets;
}

SameSetup-eq : {a b c : Db} → b ≡ c → SameSetup a b → SameSetup a c
SameSetup-eq {a} e s = subst (SameSetup a) e s

-- A record update of the other tables.
abbrev IsKept : (a b : Db) → Type 0
IsKept a b = (b.version ≡ a.version) × (b.tips ≡ a.tips) × (b.wallets ≡ a.wallets)

SameSetup-IsKept : {a b : Db} → IsKept a b → SameSetup a b
SameSetup-IsKept (v, t, w) = record { same_version = v; same_tips = t; same_wallets = w }

insert_inputs-SameSetup :
    (k : ℕ) (us : List DbTransaction) (db : Db) {db' : Db}
    → insert_inputs k us db ≡ ok db'
    → SameSetup db db'
unfolding insert_inputs
insert_inputs-SameSetup k [] db h = SameSetup-IsKept (ground (arith, h))
insert_inputs-SameSetup k (u ∷ us) db h =
    let (_, h1) = guard-eq-ok _ _ _ h in
    let rest = insert_inputs-SameSetup k us _ h1 in
    record {
      same_version = rest.same_version;
      same_tips = rest.same_tips;
      same_wallets = rest.same_wallets;
    }

delete_spend_of-SameSetup : (o : Option ℕ) (db : Db) → SameSetup db (delete_spend_of o db)
unfolding delete_spend_of
delete_spend_of-SameSetup none db = SameSetup-refl db
delete_spend_of-SameSetup (some k) db = SameSetup-IsKept (refl, refl, refl)

-- Whichever branch is taken.
either-SameSetup :
    {a : Db} (c : Bool) (x y : Db)
    → SameSetup a x
    → SameSetup a y
    → SameSetup a (if c then x else y)
either-SameSetup true x y hx hy = hx
either-SameSetup false x y hx hy = hy

upgrade_status-SameSetup :
    (k : ℕ) (is_unvault : Bool) (db : Db) → SameSetup db (upgrade_status k is_unvault db)
unfolding upgrade_status
upgrade_status-SameSetup k is_unvault db =
    let at_least =
      either-SameSetup (exists (unsigned_revocation k) db.presigned) db (set_status k secured db)
        (SameSetup-refl db) (SameSetup-IsKept (refl, refl, refl)) in
    either-SameSetup is_unvault _ _ (SameSetup-trans at_least (SameSetup-IsKept (refl, refl, refl)))
      at_least

pub Statement-SameSetup : {a b : Db} → Statement a b → SameSetup a b
unfolding db_update_presigned_tx revault_tx_merge_sigs db_mark_spent_unvault db_unconfirm_spend_dbtx
    dbtx_downgrade db_mark_securing_vault db_mark_activating_vault db_update_spend
    db_mark_broadcastable_spend db_mark_broadcasted_spend db_mark_vault_as
    db_status_from_unvault_txid db_spend_unvault db_insert_new_unconfirmed_vault db_confirm_deposit
    db_unconfirm_deposit_dbtx db_insert_spend
Statement-SameSetup {a} {b} (insert_vault w o n i r e) = SameSetup-IsKept (ground (arith, e))
Statement-SameSetup {a} {b} (confirm_deposit o n u c e f h) =
    let (vault, found, h1) = ok_or-eq-ok _ (db_vault_by_deposit a o) _ h in
    let st = store_all-Stores vault.id u c e f _ h1 in
    SameSetup-eq (sym st.stored) (SameSetup-IsKept (refl, refl, refl))
Statement-SameSetup {a} {b} (unconfirm_deposit k h) =
    let (_, h1) = guard-eq-ok _ _ _ h in
    SameSetup-eq (ok_inj refl h1) (
      SameSetup-trans
        (delete_spend_of-SameSetup (head? (spend_ids_of k a.presigned a.spend_inputs)) a)
        (SameSetup-IsKept (refl, refl, refl)))
Statement-SameSetup {a} (mark_vault k st p) = SameSetup-IsKept (refl, refl, refl)
Statement-SameSetup {a} (mark_unvault t st p) = SameSetup-IsKept (refl, refl, refl)
Statement-SameSetup {a} (downgrade k st p) = SameSetup-IsKept (refl, refl, refl)
Statement-SameSetup {a} (mark_securing k) = SameSetup-IsKept (refl, refl, refl)
Statement-SameSetup {a} (mark_activating k) = SameSetup-IsKept (refl, refl, refl)
Statement-SameSetup {a} (mark_spent k h) = SameSetup-IsKept (refl, refl, refl)
Statement-SameSetup {a} (unconfirm_spend k h) = SameSetup-IsKept (refl, refl, refl)
Statement-SameSetup {a} (spend_unvault u t) = SameSetup-IsKept (refl, refl, refl)
Statement-SameSetup {a} {b} (update_presigned f k t sigs h) =
    let (r, _, h1) = ok_or-eq-ok _ (head? (select (has_tx_id t) a.presigned)) _ h in
    let tx = with_sigs sigs r.psbt in
    SameSetup-eq (ok_inj refl h1) (
      either-SameSetup (f tx) _ _
        (SameSetup-trans (SameSetup-IsKept (refl, refl, refl))
          (upgrade_status-SameSetup k (type_eq r.tx_type unvault) _))
        (SameSetup-IsKept (refl, refl, refl)))
Statement-SameSetup {a} {b} (insert_spend us tx h) =
    let (_, h1) = guard-eq-ok _ _ _ h in
    let rest = insert_inputs-SameSetup _ us _ h1 in
    record {
      same_version = rest.same_version;
      same_tips = rest.same_tips;
      same_wallets = rest.same_wallets;
    }
Statement-SameSetup {a} (update_spend tx) = SameSetup-IsKept (refl, refl, refl)
Statement-SameSetup {a} (mark_broadcastable t) = SameSetup-IsKept (refl, refl, refl)
Statement-SameSetup {a} (mark_broadcasted t) = SameSetup-IsKept (refl, refl, refl)
