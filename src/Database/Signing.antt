-- ===== src/Database/Signing.antt =====
-- What `db_update_presigned_tx` does to the statuses.
pub mod Merge
use mathlib.Core.List.{head?}
use mathlib.Core.Option
use revaultd.Prelude.{
  ℕ, ◌≡◌, ◌≢◌, ◌⊎◌, inl, inr, refl, ap, sym, ◌∙◌, Bool, true, false, not, Option, none, some, List,
  [], ◌∷◌, ◌==◌, ◌&&◌, ◌||◌, if◌then◌else◌, select, update, exists, pop, ok, err, ok_or, arith, All,
  touched, pop-select-update, pop-select, All-update_split, Bool-cases, Option-cases, ◌>>=◌,
}
use revaultd.Fault.{database, transaction_not_found}
use revaultd.Status.{VaultStatus, secured, active, as_u32}
use revaultd.Sigs.{SigMap, extend, contains_key}
use revaultd.Database.Schema.{
  Psbt, TransactionType, type_eq, unvault, cancel, emergency, unvault_emergency, DbVault,
  DbTransaction, Db,
}
use revaultd.Database.Interface.{has_id, db_vault}
use revaultd.Database.Marks.{with_status}
use revaultd.Database.Presigned.{
  has_tx_id, with_sigs, unsigned_revocation, with_psbt, set_status, upgrade_status,
  db_update_presigned_tx,
}

-- A vault after its status was set by its id.
pub db_vault-set_status :
    (k : ℕ) (s : VaultStatus) (db : Db) (j : ℕ)
    → db_vault (set_status k s db) j
      ≡ Option.map (touched (has_id k) (with_status db.now s)) (db_vault db j)
unfolding db_vault
db_vault-set_status k s db j =
    pop-select-update (has_id j) (has_id k) (with_status db.now s) db.vaults (λ v. refl)

-- Every revocation transaction (all but the Unvault) of the vault has all its signatures.
abbrev pub RevocationsSigned : ℕ → Db → Type 0
RevocationsSigned vault_id db =
    All
      (λ (r : DbTransaction).
        r.vault_id ≡ vault_id → r.tx_type ≢ unvault → r.is_fully_signed ≡ true)
      db.presigned

signed_of_none :
    (k : ℕ) (rows : List DbTransaction)
    → exists (unsigned_revocation k) rows ≡ false
    → All
        (λ (r : DbTransaction). r.vault_id ≡ k → r.tx_type ≢ unvault → r.is_fully_signed ≡ true)
        rows
unfolding exists
signed_of_none k [] h = tt
signed_of_none k (r ∷ rows) h = ((λ e n. ground (arith, n)), signed_of_none k rows (ground arith))

none_of_signed :
    (k : ℕ) (rows : List DbTransaction)
    → All
        (λ (r : DbTransaction). r.vault_id ≡ k → r.tx_type ≢ unvault → r.is_fully_signed ≡ true)
        rows
    → exists (unsigned_revocation k) rows ≡ false
unfolding exists
none_of_signed k [] h = refl
none_of_signed k (r ∷ rows) h = ground (arith, none_of_signed k rows h.1)

-- What the status of the vault becomes, if it is written at all.
abbrev upgrade : ℕ → Bool → List DbTransaction → DbVault → DbVault
upgrade now is_unvault rows v =
    if is_unvault
    then with_status now active v
    else if exists (unsigned_revocation v.id) rows
    then v
    else with_status now secured v

-- The vault that the query finds has the id that was asked for.
pub db_vault-id : (db : Db) (k : ℕ) {v : DbVault} → db_vault db k ≡ some v → v.id ≡ k
unfolding db_vault
db_vault-id db k {v} h = ground (arith, pop-select (has_id k) db.vaults {x = v})

db_vault-upgrade_status :
    (k : ℕ) (u : Bool) (db : Db)
    → db_vault (upgrade_status k u db) k
      ≡ Option.map (upgrade db.now u db.presigned) (db_vault db k)
unfolding upgrade_status
db_vault-upgrade_status k u db = elim (Option-cases (db_vault db k)) [
  | inl e ↦ ground (
    arith,
    e,
    db_vault-set_status k secured db k,
    db_vault-set_status k active db k,
    db_vault-set_status k active (set_status k secured db) k,
  )
  | inr (v, e) ↦ ground (
    arith,
    e,
    db_vault-id db k e,
    db_vault-set_status k secured db k,
    db_vault-set_status k active db k,
    db_vault-set_status k active (set_status k secured db) k,
  )
]

-- The row that the transaction's id names.
abbrev pub tx_row : ℕ → Db → Option DbTransaction
tx_row t db = head? (select (has_tx_id t) db.presigned)

-- The tables after the signatures were written.
abbrev merged : (Psbt → Bool) → ℕ → SigMap → DbTransaction → Db → Db
merged fin t sigs r db = record db {
  presigned =
      update (has_tx_id t) (with_psbt (with_sigs sigs r.psbt) (fin (with_sigs sigs r.psbt)))
        db.presigned;
}

module _ (fin : Psbt → Bool) (k t : ℕ) (sigs : SigMap) (db : Db) {r : DbTransaction}
    (row : tx_row t db ≡ some r) where
  db_vault-merged : (j : ℕ) → db_vault (merged fin t sigs r db) j ≡ db_vault db j
  unfolding db_vault
  db_vault-merged j = refl

  update_lem :
      db_update_presigned_tx fin k t sigs db
      ≡ ok (
          if fin (with_sigs sigs r.psbt)
          then upgrade_status k (type_eq r.tx_type unvault) (merged fin t sigs r db)
          else merged fin t sigs r db)
  unfolding db_update_presigned_tx
  update_lem = rw row refl

  vault_after :
      {db' : Db}
      → db_update_presigned_tx fin k t sigs db ≡ ok db'
      → db_vault db' k ≡ (
          if fin (with_sigs sigs r.psbt)
          then Option.map
              (upgrade db.now (type_eq r.tx_type unvault) (merged fin t sigs r db).presigned)
              (db_vault db k)
          else db_vault db k)
  unfolding db_vault
  vault_after h = ground (
    arith,
    h,
    update_lem,
    db_vault-upgrade_status k (type_eq r.tx_type unvault) (merged fin t sigs r db),
  )

  presigned_after :
      {db' : Db}
      → db_update_presigned_tx fin k t sigs db ≡ ok db'
      → db'.presigned ≡ (merged fin t sigs r db).presigned
  unfolding upgrade_status
  presigned_after h = ground (arith, h, update_lem)

update-none :
    (fin : Psbt → Bool) (k t : ℕ) (sigs : SigMap) (db : Db)
    → tx_row t db ≡ none
    → db_update_presigned_tx fin k t sigs db ≡ err (database transaction_not_found)
unfolding db_update_presigned_tx
update-none fin k t sigs db e = rw e refl

-- The Unvault transaction is the one updated, and the new signatures complete it.
abbrev pub CompletesUnvault : (Psbt → Bool) → ℕ → SigMap → Db → Type 0
CompletesUnvault fin t sigs db =
    (r : DbTransaction) × (tx_row t db ≡ some r)
    × (r.tx_type ≡ unvault)
    × (fin (with_sigs sigs r.psbt) ≡ true)

-- If storing signatures changes the status of the vault, it becomes 'active' by signatures that
-- complete the Unvault transaction, or 'secured' in a database where every revocation transaction
-- of the vault is fully signed.
pub db_update_presigned_tx-status :
    (fin : Psbt → Bool) (k t : ℕ) (sigs : SigMap) (db : Db) {db' : Db} {v v' : DbVault}
    → db_update_presigned_tx fin k t sigs db ≡ ok db'
    → db_vault db k ≡ some v
    → db_vault db' k ≡ some v'
    → v'.status ≢ v.status
    → ((v'.status ≡ active) × CompletesUnvault fin t sigs db)
      ⊎ ((v'.status ≡ secured) × RevocationsSigned k db')
db_update_presigned_tx-status fin k t sigs db {db'} {v} {v'} h before after changed =
    elim (Option-cases (tx_row t db)) [
      | inl e ↦ absurd (cc (h, update-none fin k t sigs db e))
      | inr (r, row) ↦
          let now = vault_after fin k t sigs db row h in
          elim (Bool-cases (fin (with_sigs sigs r.psbt))) [
            | inr e ↦ absurd (ground (arith, now))
            | inl e ↦ elim (Bool-cases (type_eq r.tx_type unvault)) [
              | inl u ↦ inl (ground (arith, now), (r, row, ground arith, e))
              | inr u ↦
                  elim (Bool-cases
                    (exists (unsigned_revocation k) (merged fin t sigs r db).presigned)) [
                      | inl m ↦ absurd (ground (arith, now, db_vault-id db k before))
                      | inr m ↦ inr (
                        ground (arith, now, db_vault-id db k before),
                        rw (presigned_after fin k t sigs db row h)
                            (signed_of_none k (merged fin t sigs r db).presigned m),
                      )
                    ]
            ]
          ]
    ]

-- The revocation transactions of the vault other than the one with this id are fully signed.
abbrev pub OthersSigned : ℕ → ℕ → Db → Type 0
OthersSigned k t db =
    All
      (λ (r : DbTransaction).
        has_tx_id t r ≡ false → r.vault_id ≡ k → r.tx_type ≢ unvault → r.is_fully_signed ≡ true)
      db.presigned

-- Signatures that complete the last revocation transaction of a vault make it 'secured', whatever
-- its status was.
pub db_update_presigned_tx-secures :
    (fin : Psbt → Bool) (k t : ℕ) (sigs : SigMap) (db : Db) {r : DbTransaction} {v : DbVault}
    → db_vault db k ≡ some v
    → tx_row t db ≡ some r
    → r.tx_type ≢ unvault
    → fin (with_sigs sigs r.psbt) ≡ true
    → OthersSigned k t db
    → (db' : Db) × (db_update_presigned_tx fin k t sigs db ≡ ok db')
      × (db_vault db' k ≡ some (with_status db.now secured v))
db_update_presigned_tx-secures fin k t sigs db {r} {v} before row revocation complete others = (
  upgrade_status k (type_eq r.tx_type unvault) (merged fin t sigs r db),
  rw (update_lem fin k t sigs db row, complete) refl,
  ground (
    arith,
    db_vault-upgrade_status k (type_eq r.tx_type unvault) (merged fin t sigs r db),
    db_vault-id db k before,
    all_signed,
    db_vault-merged fin k t sigs db row k,
    revocation,
  ),
)
  where
    signed :
        All
          (λ (q : DbTransaction). q.vault_id ≡ k → q.tx_type ≢ unvault → q.is_fully_signed ≡ true)
          (merged fin t sigs r db).presigned
    signed =
        All-update_split
          (λ (q : DbTransaction). q.vault_id ≡ k → q.tx_type ≢ unvault → q.is_fully_signed ≡ true)
          (has_tx_id t) (with_psbt (with_sigs sigs r.psbt) (fin (with_sigs sigs r.psbt)))
          db.presigned (λ q e a b. complete) others

    all_signed : exists (unsigned_revocation k) (merged fin t sigs r db).presigned ≡ false
    all_signed = none_of_signed k (merged fin t sigs r db).presigned signed
