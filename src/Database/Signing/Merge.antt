-- ===== src/Database/Signing/Merge.antt =====
-- What `db_update_presigned_tx` leaves alone, and the signatures that it adds.
use mathlib.Core.Option
use mathlib.Core.List.{head?}
use revaultd.Prelude.{
  ℕ, ◌≡◌, ◌≢◌, ◌⊎◌, inl, inr, refl, ap, ◌∙◌, Bool, none, some, List, [], ◌∷◌, if◌then◌else◌, select,
  ok, arith, map, touched, select-update, Option-cases,
}
use revaultd.Status.{secured, active}
use revaultd.Sigs.{PubKey, SigMap, get}
use revaultd.Sigs.Laws.{HasNoTwice, or_else, get-extend}
use revaultd.Database.Schema.{Psbt, type_eq, unvault, DbTransaction, Db}
use revaultd.Database.Interface.{db_vault}
use revaultd.Database.Presigned.{
  has_tx_id, with_sigs, with_psbt, set_status, upgrade_status, db_update_presigned_tx,
}
use revaultd.Database.Signing.{
  db_vault-set_status, db_vault-id, tx_row, merged, update_lem, presigned_after, db_vault-merged,
}

head?-map {ℓ} : {A : Type ℓ} (g : A → A) (xs : List A) → head? (map g xs) ≡ Option.map g (head? xs)
head?-map g [] = refl
head?-map g (x ∷ xs) = refl

other_vault :
    (k : ℕ) (u : Bool) (db : Db) (j : ℕ)
    → j ≢ k
    → db_vault (upgrade_status k u db) j ≡ db_vault db j
unfolding upgrade_status
other_vault k u db j ne = elim (Option-cases (db_vault db j)) [
  | inl e ↦ ground (
    arith,
    e,
    db_vault-set_status k secured db j,
    db_vault-set_status k active db j,
    db_vault-set_status k active (set_status k secured db) j,
  )
  | inr (v, e) ↦ ground (
    arith,
    e,
    db_vault-id db j e,
    db_vault-set_status k secured db j,
    db_vault-set_status k active db j,
    db_vault-set_status k active (set_status k secured db) j,
  )
]

tx_row-merged :
    (fin : Psbt → Bool) (t : ℕ) (sigs : SigMap) (r : DbTransaction) (db : Db) (u : ℕ)
    → tx_row u (merged fin t sigs r db)
      ≡ Option.map
          (touched (has_tx_id t) (with_psbt (with_sigs sigs r.psbt) (fin (with_sigs sigs r.psbt))))
          (tx_row u db)
tx_row-merged fin t sigs r db u =
    ap head? (select-update (has_tx_id u) (has_tx_id t) _ db.presigned (λ q. refl))
    ∙ head?-map _ (select (has_tx_id u) db.presigned)

tx_row-id :
    (u : ℕ) (rows : List DbTransaction) {r : DbTransaction}
    → head? (select (has_tx_id u) rows) ≡ some r
    → r.id ≡ u
unfolding select
tx_row-id u [] h = cc
tx_row-id u (q ∷ rows) {r} h = ground (arith, tx_row-id u rows {r = r})

-- The transaction that is stored keeps its txid, has the new signature of each key that has one and
-- the old signatures of the other keys, and is marked fully signed exactly if it can be finalized.
abbrev pub IsMerge : (Psbt → Bool) → SigMap → DbTransaction → DbTransaction → Type 0
IsMerge fin sigs r r' =
    (r'.psbt.txid ≡ r.psbt.txid)
    × (r'.is_fully_signed ≡ fin r'.psbt)
    × ((p : PubKey) → get r'.psbt.partial_sigs p ≡ or_else (get sigs p) (get r.psbt.partial_sigs p))

-- Storing signatures, one for a key, in a transaction that is in the database succeeds. For each key
-- the transaction then has the new signature if there is one, and else what it had; it keeps its txid
-- and is marked fully signed exactly if it can be finalized. The other transactions and the other
-- vaults stay as they are.
pub db_update_presigned_tx-merges :
    (fin : Psbt → Bool) (k t : ℕ) (sigs : SigMap) (db : Db) {r : DbTransaction}
    → HasNoTwice sigs
    → tx_row t db ≡ some r
    → (db' : Db) × (db_update_presigned_tx fin k t sigs db ≡ ok db')
      × ((r' : DbTransaction) × (tx_row t db' ≡ some r') × IsMerge fin sigs r r')
      × ((u : ℕ) → u ≢ t → tx_row u db' ≡ tx_row u db)
      × ((j : ℕ) → j ≢ k → db_vault db' j ≡ db_vault db j)
db_update_presigned_tx-merges fin k t sigs db {r} distinct row = (
  after,
  update_lem fin k t sigs db row,
  (
    with_psbt tx (fin tx) r,
    ground (arith, rows t, row, tx_row-id t db.presigned row),
    (refl, refl, λ p. get-extend r.psbt.partial_sigs sigs p distinct),
  ),
  λ u ne. same_row u ne (Option-cases (tx_row u db)),
  λ j ne. ground (
    arith,
    other_vault k (type_eq r.tx_type unvault) (merged fin t sigs r db) j ne,
    db_vault-merged fin k t sigs db row j,
  ),
)
  where
    tx : Psbt
    tx = with_sigs sigs r.psbt

    after : Db
    after =
        if fin tx
        then upgrade_status k (type_eq r.tx_type unvault) (merged fin t sigs r db)
        else merged fin t sigs r db

    rows :
        (u : ℕ)
        → tx_row u after ≡ Option.map (touched (has_tx_id t) (with_psbt tx (fin tx))) (tx_row u db)
    rows u =
        ap (λ (ps : List DbTransaction). head? (select (has_tx_id u) ps))
          (presigned_after fin k t sigs db row (update_lem fin k t sigs db row))
        ∙ tx_row-merged fin t sigs r db u

    same_row :
        (u : ℕ)
        → u ≢ t
        → (tx_row u db ≡ none) ⊎ ((q : DbTransaction) × (tx_row u db ≡ some q))
        → tx_row u after ≡ tx_row u db
    same_row u ne (inl e) = ground (arith, rows u, e)
    same_row u ne (inr (q, e)) = ground (arith, rows u, e, tx_row-id u db.presigned e)
