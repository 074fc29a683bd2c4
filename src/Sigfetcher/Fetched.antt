-- ===== src/Sigfetcher/Fetched.antt =====
-- src/daemon/sigfetcher.rs: what the coordinator answers cannot bring the signature of a stranger into
-- the database.
use mathlib.Core.List.{head?}
use revaultd.Prelude.{
  ◌∙◌, ℕ, ◌≡◌, arith, subst, sym, Bool, true, Bool-cases, Option-cases, Result-cases, inl, inr,
  some, List, [], ◌∷◌, ok, All, All-update, ◌==◌, select, update, if◌then◌else◌, ok_or-eq-ok,
}
use revaultd.Fault.{database, transaction_not_found}
use revaultd.Sigs.{PubKey, Bytes, SigMap, insert, extend}
use revaultd.Database.Schema.{Psbt, DbTransaction, type_eq, unvault, Db}
use revaultd.Database.Presigned.{
  db_update_presigned_tx, revault_tx_merge_sigs, upgrade_status, has_tx_id, with_psbt, with_sigs,
}
use revaultd.Control.Signatures.{Secp}
use revaultd.Control.Session.{is_fatal, from_fault, Session, Net, Daemon}
use revaultd.Control.Keys.{contains}
use revaultd.Control.Coordinator.{Txs}
use revaultd.Api.Presigned.Vetted.{AreAmong}
use revaultd.Sigfetcher.{with_fetched, add_fetched}

AreAmong-insert :
    (keys : List PubKey) (k : PubKey) (s : Bytes) (m : SigMap)
    → contains keys k ≡ true
    → AreAmong keys m
    → AreAmong keys (insert k s m)
unfolding insert
AreAmong-insert keys k s [] known h = (known, tt)
AreAmong-insert keys k s ((j, t) ∷ m) known (h, hs) = elim (Bool-cases (j == k)) [
  | inl e ↦ rw e (known, hs)
  | inr e ↦ rw e (h, AreAmong-insert keys k s m known hs)
]

AreAmong-extend :
    (keys : List PubKey) (m sigs : SigMap)
    → AreAmong keys m
    → AreAmong keys sigs
    → AreAmong keys (extend m sigs)
unfolding extend
AreAmong-extend keys m [] h hs = h
AreAmong-extend keys m ((k, s) ∷ sigs) h (known, hs) =
    AreAmong-extend keys (insert k s m) sigs (AreAmong-insert keys k s m known h) hs

-- The row of the transaction has no signature but by these keys.
abbrev pub RowIsAmong : List PubKey → ℕ → Db → Type 0
RowIsAmong keys tx_db_id db =
    All (λ (r : DbTransaction). (has_tx_id tx_db_id r ≡ true) → AreAmong keys r.psbt.partial_sigs)
      db.presigned

head-RowIsAmong :
    (keys : List PubKey) (tx_db_id : ℕ) (rows : List DbTransaction) {r : DbTransaction}
    → head? (select (has_tx_id tx_db_id) rows) ≡ some r
    → All
        (λ (r : DbTransaction). (has_tx_id tx_db_id r ≡ true) → AreAmong keys r.psbt.partial_sigs)
        rows
    → AreAmong keys r.psbt.partial_sigs
unfolding select
head-RowIsAmong keys t [] h all = cc
head-RowIsAmong keys t (x ∷ xs) {r} h (here, there) = elim (Bool-cases (has_tx_id t x)) [
  | inl e ↦
      subst (λ (y : DbTransaction). AreAmong keys y.psbt.partial_sigs) {x = x} {y = r}
        (ground (arith, h, e)) (here e)
  | inr e ↦ head-RowIsAmong keys t xs {r = r} (ground (arith, h, e)) there
]

upgraded-presigned :
    (b is_unvault : Bool) (k : ℕ) (db : Db)
    → (if b then upgrade_status k is_unvault db else db).presigned ≡ db.presigned
unfolding upgrade_status
upgraded-presigned b is_unvault k db = ground arith

module _ (is_finalizable : Psbt → Bool) (keys : List PubKey) (vault_id tx_db_id : ℕ) where
  update-RowIsAmong :
      (sigs : SigMap) (db db' : Db)
      → db_update_presigned_tx is_finalizable vault_id tx_db_id sigs db ≡ ok db'
      → AreAmong keys sigs
      → RowIsAmong keys tx_db_id db
      → RowIsAmong keys tx_db_id db'
  unfolding db_update_presigned_tx revault_tx_merge_sigs
  update-RowIsAmong sigs db db' h among rows =
      let merged = λ (r : DbTransaction). with_sigs sigs r.psbt in
      let final = λ (r : DbTransaction). is_finalizable (merged r) in
      let written = λ (r : DbTransaction). record db {
        presigned = update (has_tx_id tx_db_id) (with_psbt (merged r) (final r)) db.presigned;
      } in
      let after = λ (r : DbTransaction).
        if final r
        then upgrade_status vault_id (type_eq r.tx_type unvault) (written r)
        else written r in
      let (r, e, h1) =
        ok_or-eq-ok (database transaction_not_found)
          (head? (select (has_tx_id tx_db_id) db.presigned)) (λ r. ok (after r)) h in
      let same : (written r).presigned ≡ db'.presigned =
        sym (upgraded-presigned (final r) (type_eq r.tx_type unvault) vault_id (written r))
        ∙ ground (arith, h1) in
      subst
        (λ (rs : List DbTransaction).
          All
            (λ (x : DbTransaction).
              (has_tx_id tx_db_id x ≡ true) → AreAmong keys x.psbt.partial_sigs)
            rs)
        {x = (written r).presigned} {y = db'.presigned} same
        (All-update
          (λ (x : DbTransaction). (has_tx_id tx_db_id x ≡ true) → AreAmong keys x.psbt.partial_sigs)
          (has_tx_id tx_db_id) (with_psbt (merged r) (final r)) db.presigned
          (λ x e' p e2.
            AreAmong-extend keys r.psbt.partial_sigs sigs
              (head-RowIsAmong keys tx_db_id db.presigned e rows) among)
          rows)

module _ (secp : Secp) (is_finalizable : Psbt → Bool) (servers : Net) (daemon : Daemon) (txs : Txs)
    (keys : List PubKey) (vault_id tx_db_id : ℕ)
    (adds : (tx : Psbt) (k : PubKey) (sig : ℕ) (tx' : Psbt)
      → txs.add_signature tx k sig ≡ some tx'
      → (bytes : Bytes) × (tx'.partial_sigs ≡ insert k bytes tx.partial_sigs)) where
  with_fetched-AreAmong :
      (tx : Psbt) (k : PubKey) (sig : ℕ) (tx' : Psbt)
      → with_fetched secp is_finalizable servers daemon txs keys tx k sig ≡ some tx'
      → AreAmong keys tx.partial_sigs
      → AreAmong keys tx'.partial_sigs
  unfolding with_fetched
  with_fetched-AreAmong tx k sig tx' h among =
      let (bytes, e) = adds tx k sig tx' (ground (arith, h)) in
      subst (AreAmong keys) {x = insert k bytes tx.partial_sigs} {y = tx'.partial_sigs} (sym e)
        (AreAmong-insert keys k bytes tx.partial_sigs (ground (arith, h)) among)

  -- Whatever the coordinator answers, if the transaction and its row have no signature by a key that
  -- is not a stakeholder's, then neither has the row after the signatures were added. The condition
  -- on the library is that it adds a signature as an entry of its key.
  pub add_fetched-RowIsAmong :
      (signatures : List (PubKey × ℕ)) (tx : Psbt) (s : Session)
      → AreAmong keys tx.partial_sigs
      → RowIsAmong keys tx_db_id s.db
      → RowIsAmong keys tx_db_id
          (add_fetched secp is_finalizable servers daemon txs vault_id tx_db_id keys signatures tx
            s).1.db
  unfolding add_fetched
  add_fetched-RowIsAmong [] tx s among rows = rows
  add_fetched-RowIsAmong ((k, sig) ∷ signatures) tx s among rows =
      elim (Option-cases (with_fetched secp is_finalizable servers daemon txs keys tx k sig)) [
        | inl e ↦ rw e (add_fetched-RowIsAmong signatures tx s among rows)
        | inr (tx', e) ↦
            let among' = with_fetched-AreAmong tx k sig tx' e among in
            elim (Result-cases
              (db_update_presigned_tx is_finalizable vault_id tx_db_id tx'.partial_sigs s.db)) [
                | inl (db, e1) ↦ rw e (
                    rw e1 (
                      add_fetched-RowIsAmong signatures tx' (record s { db = db }) among'
                        (update-RowIsAmong is_finalizable keys vault_id tx_db_id tx'.partial_sigs
                          s.db db e1 among' rows)))
                | inr (fault, e1) ↦ elim (Bool-cases (is_fatal (from_fault fault))) [
                  | inl e2 ↦ rw e (rw e1 (rw e2 rows))
                  | inr e2 ↦
                      rw e (rw e1 (rw e2 (add_fetched-RowIsAmong signatures tx' s among' rows)))
                ]
              ]
      ]
