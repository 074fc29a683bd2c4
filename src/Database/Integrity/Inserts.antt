-- ===== src/Database/Integrity/Inserts.antt =====
-- src/daemon/database/actions.rs: the integrity of the tables after new rows: a new deposit, the
-- presigned transactions of a confirmed one, a Spend and its inputs.
use revaultd.Prelude.{
  ℕ, ◌≤◌, ◌≡◌, ◌∙◌, refl, sym, ap, subst, arith, Bool, true, false, Option, some, List, [], ◌∷◌,
  ◌++◌, ◌==◌, ok, All, All-append, All-update_split, All-imp, exists, exists-append, exists-update,
  update, Bool-cases, inl, inr, >>=-eq-ok, guard-eq-ok, ok_or-eq-ok, select, pop, ==_refl,
}
use revaultd.Fault.{Res}
use revaultd.Status.{unconfirmed}
use revaultd.Database.Schema.{OutPoint, Psbt, SpendPsbt, DbVault, DbTransaction, DbSpendInput, Db}
use revaultd.Database.Interface.{has_id, at_deposit, db_vault_by_deposit}
use revaultd.Database.Presigned.{has_tx_id}
use revaultd.Database.Deposits.{
  next_id, vault_ids, of_vault, with_confirmation, amount_to_i64, db_insert_new_unconfirmed_vault,
  db_confirm_deposit,
}
use revaultd.Database.Deposits.Store.{IsNew, Stores, store_all-Stores, next_id_fresh}
use revaultd.Database.Spends.{insert_inputs, db_insert_spend, spend_ids}
use revaultd.Database.Integrity.{IsSound, has_spend_id}
use revaultd.Database.Integrity.Marks.{update-IsSound}

module _ {ℓ} {A : Type ℓ} where
  -- More rows do not lose one.
  exists_grows : (p : A → Bool) (xs ys : List A) → exists p xs ≡ true → exists p (xs ++ ys) ≡ true
  exists_grows p xs ys h = ground (arith, exists-append p xs ys, h)

  pub ok_inj : {r : Res A} {a b : A} → r ≡ ok a → r ≡ ok b → a ≡ b
  ok_inj h k = cc

  -- The row at the end.
  exists_last : (p : A → Bool) (xs : List A) (y : A) → p y ≡ true → exists p (xs ++ y ∷ []) ≡ true
  unfolding exists
  exists_last p [] y h = ground (arith, h)
  exists_last p (x ∷ xs) y h = ground (arith, exists_last p xs y h)

  -- A row that an answer has passes a test, so some row of the table does.
  exists_found :
      (p q : A → Bool) (xs : List A) {x : A}
      → pop (select p xs) ≡ some x
      → q x ≡ true
      → exists q xs ≡ true
  unfolding pop select exists
  exists_found p q [] h e = absurd cc h
  exists_found p q (y ∷ xs) {x} h e = ground (arith, exists_found p q xs {x = x}, h, e)

module _ {ℓ κ μ ν} {A : Type ℓ} (P : A → Type κ) (Q : A → Type μ) (R : A → Type ν) where
  All-zip : ((x : A) → P x → Q x → R x) → (xs : List A) → All P xs → All Q xs → All R xs
  All-zip h [] hp hq = tt
  All-zip h (x ∷ xs) hp hq = (h x hp.0 hq.0, All-zip h xs hp.1 hq.1)

≤_refl : {n : ℕ} → n ≤ n
≤_refl = omega arith

-- A vault that is not in the table has no transaction.
no_txs :
    (vaults : List DbVault) (k : ℕ) (txs : List DbTransaction)
    → exists (has_id k) vaults ≡ false
    → All (λ (r : DbTransaction). exists (has_id r.vault_id) vaults ≡ true) txs
    → exists (of_vault k) txs ≡ false
unfolding exists
no_txs vaults k [] new h = refl
no_txs vaults k (r ∷ txs) new (h, hs) = elim (Bool-cases (of_vault k r)) [
  | inl e ↦
      let same : r.vault_id ≡ k = ground (arith, e) in
      ground (arith, ap (λ i. exists (has_id i) vaults) same)
  | inr e ↦ ground (arith, e, no_txs vaults k txs new hs)
]

-- A vault without a Spend, unconfirmed and with a new id.
with_vault-IsSound :
    (v : DbVault) (db : Db)
    → exists (has_id v.id) db.vaults ≡ false
    → v.status ≡ unconfirmed
    → IsSound db
    → IsSound (record db { vaults = db.vaults ++ v ∷ [] })
with_vault-IsSound v db new u s = record {
  txs_have_vault =
      All-imp (λ (r : DbTransaction). exists_grows (has_id r.vault_id) db.vaults (v ∷ []))
        db.presigned s.txs_have_vault;
  inputs_have_tx = s.inputs_have_tx;
  inputs_have_spend = s.inputs_have_spend;
  unconfirmed_are_bare =
      All-append _ db.vaults (v ∷ []) s.unconfirmed_are_bare
        ((λ _. no_txs db.vaults v.id db.presigned new s.txs_have_vault), tt);
  spends_are_known =
      All-append _ db.vaults (v ∷ []) s.spends_are_known
        ((λ e. elim e [ inl a ↦ absurd cc (sym u ∙ a) | inr a ↦ absurd cc (sym u ∙ a) ]), tt);
}

-- A new deposit leaves the tables sound: its id is new, so that it has no transaction.
pub db_insert_new_unconfirmed_vault-IsSound :
    (wallet_id : ℕ) (outpoint : OutPoint) (amount index received : ℕ) (db : Db) {db' : Db}
    → db_insert_new_unconfirmed_vault wallet_id outpoint amount index received db ≡ ok db'
    → IsSound db
    → IsSound db'
unfolding db_insert_new_unconfirmed_vault
db_insert_new_unconfirmed_vault-IsSound wallet_id outpoint amount index received db {db'} h s =
    let (sats, _, h1) = >>=-eq-ok (amount_to_i64 amount) _ h in
    let (_, h2) = guard-eq-ok _ _ _ h1 in
    let same = ok_inj refl h2 in
    subst IsSound same (
      with_vault-IsSound _ db
        (next_id_fresh (λ (v : DbVault). v.id) db.vaults (next_id (vault_ids db)) ≤_refl) refl s)

-- The new transactions are those of their vault only.
not_of_vault :
    (k j : ℕ) (db : Db) (rows : List DbTransaction)
    → (j == k) ≡ false
    → All (IsNew k db) rows
    → exists (of_vault j) rows ≡ false
unfolding exists
not_of_vault k j db [] other h = refl
not_of_vault k j db (r ∷ rows) other (n, h) =
    ground (arith, not_of_vault k j db rows other h, n.0, other)

abbrev IsBare : List DbTransaction → DbVault → Type 0
IsBare txs v = v.status ≡ unconfirmed → exists (of_vault v.id) txs ≡ false

-- Not the vault of the id, if it is unconfirmed.
abbrev IsOther : ℕ → DbVault → Type 0
IsOther k v = v.status ≡ unconfirmed → has_id k v ≡ false

-- The statements of `Stores` add transactions of a vault that is confirmed.
Stores-IsSound :
    (k : ℕ) (db : Db) {db' : Db}
    → Stores k db db'
    → exists (has_id k) db.vaults ≡ true
    → All (IsOther k) db.vaults
    → IsSound db
    → IsSound db'
Stores-IsSound k db st known settled s = subst IsSound (sym st.stored) (record {
  txs_have_vault = All-append _ db.presigned st.rows s.txs_have_vault (
      All-imp (λ (r : DbTransaction) n. ap (λ i. exists (has_id i) db.vaults) (n.0) ∙ known) st.rows
        st.are_new);
  inputs_have_tx =
      All-imp (λ (i : DbSpendInput). exists_grows (has_tx_id i.unvault_id) db.presigned st.rows)
        db.spend_inputs s.inputs_have_tx;
  inputs_have_spend = s.inputs_have_spend;
  unconfirmed_are_bare =
      All-zip (IsBare db.presigned) (IsOther k) (IsBare (db.presigned ++ st.rows))
        (λ (v : DbVault) bare other u. ground (
          arith,
          exists-append (of_vault v.id) db.presigned st.rows,
          bare u,
          not_of_vault k v.id db st.rows (other u) st.are_new,
        ))
        db.vaults s.unconfirmed_are_bare settled;
  spends_are_known = s.spends_are_known;
})

-- A deposit that is confirmed leaves the tables sound: its vault is no longer unconfirmed, and the
-- transactions that are stored are of that vault.
pub db_confirm_deposit-IsSound :
    (outpoint : OutPoint) (height : ℕ) (u c : Psbt) (e f : Option Psbt) (db : Db) {db' : Db}
    → db_confirm_deposit outpoint height u c e f db ≡ ok db'
    → IsSound db
    → IsSound db'
unfolding db_confirm_deposit db_vault_by_deposit
db_confirm_deposit-IsSound outpoint height u c e f db {db'} h s =
    let (vault, found, h1) = ok_or-eq-ok _ (db_vault_by_deposit db outpoint) _ h in
    let db1 : Db = record db {
      vaults = update (has_id vault.id) (with_confirmation db.now height) db.vaults;
    } in
    Stores-IsSound vault.id db1 (store_all-Stores vault.id u c e f db1 h1)
      (exists-update (has_id vault.id) (has_id vault.id) (with_confirmation db.now height) db.vaults
          (λ v. refl)
        ∙ exists_found (at_deposit outpoint) (has_id vault.id) db.vaults found (==_refl vault.id))
      (All-update_split _ (has_id vault.id) (with_confirmation db.now height) db.vaults
        (λ v _ a. absurd cc a) (All-imp (λ v _ other _. other) db.vaults s.spends_are_known))
      (update-IsSound (has_id vault.id) (with_confirmation db.now height) db (λ v j. refl)
        (λ v a. cc) (λ v a. elim a [ inl b ↦ absurd cc b | inr b ↦ absurd cc b ]) s)

-- One input more, of a Spend and an Unvault transaction that the tables have.
with_input-IsSound :
    (i : DbSpendInput) (db : Db)
    → exists (has_tx_id i.unvault_id) db.presigned ≡ true
    → exists (has_spend_id i.spend_id) db.spends ≡ true
    → IsSound db
    → IsSound (record db { spend_inputs = db.spend_inputs ++ i ∷ [] })
with_input-IsSound i db t p s = record {
  txs_have_vault = s.txs_have_vault;
  inputs_have_tx = All-append _ db.spend_inputs (i ∷ []) s.inputs_have_tx (t, tt);
  inputs_have_spend = All-append _ db.spend_inputs (i ∷ []) s.inputs_have_spend (p, tt);
  unconfirmed_are_bare = s.unconfirmed_are_bare;
  spends_are_known = s.spends_are_known;
}

insert_inputs-IsSound :
    (spend_id : ℕ) (us : List DbTransaction) (db : Db) {db' : Db}
    → insert_inputs spend_id us db ≡ ok db'
    → exists (has_spend_id spend_id) db.spends ≡ true
    → IsSound db
    → IsSound db'
unfolding insert_inputs
insert_inputs-IsSound spend_id [] db h p s = subst IsSound (ok_inj refl h) s
insert_inputs-IsSound spend_id (u ∷ us) db h p s =
    let (known, h1) = guard-eq-ok _ _ _ h in
    insert_inputs-IsSound spend_id us _ h1 p (with_input-IsSound _ db known p s)

-- A Spend that is inserted leaves the tables sound: its inputs are of Unvault transactions that are
-- in the database.
pub db_insert_spend-IsSound :
    (unvault_txs : List DbTransaction) (tx : SpendPsbt) (db : Db) {db' : Db}
    → db_insert_spend unvault_txs tx db ≡ ok db'
    → IsSound db
    → IsSound db'
unfolding db_insert_spend
db_insert_spend-IsSound us tx db h s =
    let (_, h1) = guard-eq-ok _ _ _ h in
    insert_inputs-IsSound (next_id (spend_ids db)) us _ h1
      (exists_last (has_spend_id (next_id (spend_ids db))) db.spends _
        (==_refl (next_id (spend_ids db))))
      (record {
        txs_have_vault = s.txs_have_vault;
        inputs_have_tx = s.inputs_have_tx;
        inputs_have_spend =
            All-imp (λ (i : DbSpendInput). exists_grows (has_spend_id i.spend_id) db.spends _)
              db.spend_inputs s.inputs_have_spend;
        unconfirmed_are_bare = s.unconfirmed_are_bare;
        spends_are_known = s.spends_are_known;
      })
