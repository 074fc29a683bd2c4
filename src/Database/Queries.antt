-- ===== src/Database/Queries.antt =====
-- src/daemon/database/interface.rs: the queries that join more tables. A `HashMap` is a list of its
-- entries in the order in which their keys came; the order of the original is not specified.
use revaultd.Prelude.{
  Bool, ◌==◌, ◌&&◌, ◌||◌, ltb, Option, none, some, List, [], ◌∷◌, ◌++◌, map, select, if◌then◌else◌,
}
use revaultd.Status.{VaultStatus, as_u32, status_eq, unvaulting, unvaulted, spending, canceling}
use revaultd.Database.Schema.{
  Txid, OutPoint, Psbt, TransactionType, emergency, unvault_emergency, type_eq, DbVault,
  DbTransaction, DbSpendInput, DbSpendTransaction, Db,
}
use revaultd.Database.Interface.{has_id}
use revaultd.Database.Presigned.{has_tx_id}
use revaultd.Database.Spends.{has_spend_txid}

-- `iter().flat_map(f)`
unfoldable pub flat_map {ℓ κ} : {A : Type ℓ} {B : Type κ} → (A → List B) → List A → List B
flat_map f [] = []
flat_map f (x ∷ xs) = f x ++ flat_map f xs

-- The vaults that a Spend spends, with the txids of their Unvaults: the joined rows.
unfoldable pub spent_rows : Db → DbSpendTransaction → List (Txid × DbVault)
unfolding flat_map
spent_rows db stx =
    flat_map
      (λ (sin : DbSpendInput).
        flat_map
          (λ (ptx : DbTransaction).
            map (λ v. (ptx.psbt.txid, v)) (select (has_id ptx.vault_id) db.vaults))
          (select (has_tx_id sin.unvault_id) db.presigned))
      (select (λ (sin : DbSpendInput). sin.spend_id == stx.id) db.spend_inputs)

-- `map.insert(key, value)`
unfoldable pub insert_at {κ} : {B : Type κ} → Txid → B → List (Txid × B) → List (Txid × B)
insert_at k b [] = (k, b) ∷ []
insert_at k b ((j, c) ∷ m) =
    let rest = insert_at k b m in if j == k then (k, b) ∷ m else (j, c) ∷ rest

-- `map.get(&key)`
unfoldable pub get_at {κ} : {B : Type κ} → List (Txid × B) → Txid → Option B
get_at [] k = none
get_at ((j, c) ∷ m) k = let rest = get_at m k in if j == k then some c else rest

unfoldable pub collected {κ} : {B : Type κ} → List (Txid × B) → List (Txid × B) → List (Txid × B)
unfolding insert_at
collected m [] = m
collected m ((k, b) ∷ rows) = collected (insert_at k b m) rows

unfoldable pub db_vaults_from_spend : Db → Txid → List (Txid × DbVault)
unfolding flat_map spent_rows collected
db_vaults_from_spend db spend_txid =
    collected [] (flat_map (spent_rows db) (select (has_spend_txid spend_txid) db.spends))

abbrev pub SpendEntry : Type 0
SpendEntry = DbSpendTransaction × List OutPoint

-- A row either adds its outpoint to the entry of its Spend, or is a new entry.
unfoldable pub add_spend_row :
    DbSpendTransaction → OutPoint → List (Txid × SpendEntry) → List (Txid × SpendEntry)
add_spend_row stx o [] = (stx.psbt.txid, (stx, o ∷ [])) ∷ []
add_spend_row stx o ((j, (entry, outpoints)) ∷ m) =
    let rest = add_spend_row stx o m in
    if j == stx.psbt.txid
    then (j, (entry, outpoints ++ o ∷ [])) ∷ m
    else (j, (entry, outpoints)) ∷ rest

unfoldable pub add_spend_rows :
    List (DbSpendTransaction × OutPoint) → List (Txid × SpendEntry) → List (Txid × SpendEntry)
unfolding add_spend_row
add_spend_rows [] m = m
add_spend_rows ((stx, o) ∷ rows) m = add_spend_rows rows (add_spend_row stx o m)

unfoldable pub db_list_spends : Db → List (Txid × SpendEntry)
unfolding flat_map spent_rows add_spend_rows
db_list_spends db =
    add_spend_rows
      (flat_map
        (λ (stx : DbSpendTransaction).
          map (λ (r : Txid × DbVault). (stx, r.1.deposit_outpoint)) (spent_rows db stx))
        db.spends)
      []

-- `presigned_transactions as ptx INNER JOIN vaults as v ON ptx.vault_id = v.id`, where the
-- transaction is fully signed, of the type, and the status passes the test.
unfoldable pub signed_txs : TransactionType → (VaultStatus → Bool) → Db → List Psbt
unfolding flat_map
signed_txs t p db =
    flat_map
      (λ (ptx : DbTransaction).
        map (λ (v : DbVault). ptx.psbt)
          (select (λ (v : DbVault). v.id == ptx.vault_id && p v.status) db.vaults))
      (select (λ (ptx : DbTransaction). ptx.is_fully_signed && type_eq ptx.tx_type t) db.presigned)

abbrev pub is_before_unvault : VaultStatus → Bool
is_before_unvault s = ltb (as_u32 s) (as_u32 unvaulting)

abbrev pub is_unvault_unspent : VaultStatus → Bool
is_unvault_unspent s =
    status_eq s unvaulting || status_eq s unvaulted || status_eq s spending || status_eq s canceling

unfoldable pub db_signed_emer_txs : Db → List Psbt
unfolding signed_txs
db_signed_emer_txs db = signed_txs emergency is_before_unvault db

unfoldable pub db_signed_unemer_txs : Db → List Psbt
unfolding signed_txs
db_signed_unemer_txs db = signed_txs unvault_emergency is_unvault_unspent db
