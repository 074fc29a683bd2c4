-- ===== src/Poller/Tip/Frame.antt =====
-- Routines that do not touch a vault, whether they succeed or fail: how they compose.
use revaultd.Prelude.{
  ℕ, ◌≡◌, ◌≢◌, ◌∙◌, ap, refl, subst, Bool, true, false, some, List, [], ◌∷◌, ◌==◌, ◌&&◌, ◌||◌, map,
  arith, All, All-append, ok, err, select, update, exists, pop, Bool-cases, inl, inr, pop-select,
  ==_refl,
}
use revaultd.Fault.{Res, is_fatal}
use revaultd.Status.{
  VaultStatus, unvaulted, status_eq, canceling, spending, emergency_vaulting,
  unvault_emergency_vaulting,
}
use revaultd.Database.Schema.{Txid, unvault, DbVault, DbTransaction, Db}
use revaultd.Database.Interface.{is_tx, presigned_tx, db_unvault_transaction, has_id, join_txs}
use revaultd.Database.Marks.{
  with_status, has_tx, db_mark_vault_as, db_status_from_unvault_txid, db_confirm_unvault,
}
use revaultd.Bitcoind.Run.{World, Run, after, ◌>>=◌, lift, exec, or_default, rescued, each}

-- The rows of the vault.
abbrev pub rows_of : ℕ → World → List DbVault
rows_of k w = select (has_id k) w.db.vaults

-- It waits for the confirmation of the transaction that takes it out.
abbrev pub is_pending : DbVault → Bool
is_pending v =
    status_eq v.status spending
    || status_eq v.status canceling
    || status_eq v.status emergency_vaulting
    || status_eq v.status unvault_emergency_vaulting

abbrev pub is_tx_of : Txid → ℕ → DbTransaction → Bool
is_tx_of txid k r = r.psbt.txid == txid && r.vault_id == k

-- No two vaults have a presigned transaction with the same txid (the column is UNIQUE).
abbrev pub OneOwner : List DbTransaction → Type 0
OneOwner rows =
    (txid i j : ℕ)
    → exists (is_tx_of txid i) rows ≡ true
    → exists (is_tx_of txid j) rows ≡ true
    → i ≡ j

module _ (k : ℕ) (txs : List DbTransaction) (one : OneOwner txs) where
  -- A world where the vault waits for nothing.
  abbrev pub Quiet : World → Type 0
  Quiet w = (w.db.presigned ≡ txs) × (exists is_pending (rows_of k w) ≡ false)

  -- The routine does not touch the vault, whether it succeeds or fails.
  abbrev pub Frames {ℓ} : {A : Type ℓ} → Run A → Type 0
  Frames m =
      (w : World) → Quiet w → ((m w).1.db.presigned ≡ txs) × (rows_of k (m w).1 ≡ rows_of k w)

  pub stays :
      (w w' : World) → Quiet w → (w'.db.presigned ≡ txs) × (rows_of k w' ≡ rows_of k w) → Quiet w'
  stays w w' q f = (f.0, ap (exists is_pending) f.1 ∙ q.1)

  after-Frames {ℓ κ} :
      {A : Type ℓ} {B : Type κ} (f : A → Run B)
      → ((a : A) → Frames (f a))
      → (w : World) (p : Res A × World) → Quiet w
      → (p.1.db.presigned ≡ txs) × (rows_of k p.1 ≡ rows_of k w)
      → ((after p f).1.db.presigned ≡ txs) × (rows_of k (after p f).1 ≡ rows_of k w)
  after-Frames f hf w (err e, v) q hp = hp
  after-Frames f hf w (ok a, v) q hp = let (h1, h2) = hf a v (stays w v q hp) in (h1, h2 ∙ hp.1)

  pub bind-Frames {ℓ κ} :
      {A : Type ℓ} {B : Type κ} (m : Run A) (f : A → Run B)
      → Frames m
      → ((a : A) → Frames (f a))
      → Frames (m >>= f)
  bind-Frames m f hm hf w q = after-Frames f hf w (m w) q (hm w q)

  pub each-Frames {ℓ} :
      {A : Type ℓ} (xs : List A) (body : A → Run (Unit {0}))
      → All (λ x. Frames (body x)) xs
      → Frames (each xs body)
  unfolding each
  each-Frames [] body h w q = (q.0, refl)
  each-Frames (x ∷ xs) body h w q =
      bind-Frames (body x) (λ _. each xs body) h.0 (λ _. each-Frames xs body h.1) w q

  rescued-world {ℓ} : {A : Type ℓ} (d : A) (p : Res A × World) → (rescued is_fatal d p).1 ≡ p.1
  rescued-world d (ok a, w) = refl
  rescued-world d (err e, w) = refl

  pub or_default-Frames {ℓ} : {A : Type ℓ} (d : A) (m : Run A) → Frames m → Frames (or_default d m)
  or_default-Frames d m hm w q = rw (rescued-world d (m w)) (hm w q)

  -- An update of rows of other vaults.
  select-update_other :
      (q : DbVault → Bool) (f : DbVault → DbVault) (vs : List DbVault)
      → ((v : DbVault) → has_id k (f v) ≡ has_id k v)
      → ((v : DbVault) → has_id k v ≡ true → q v ≡ false)
      → select (has_id k) (update q f vs) ≡ select (has_id k) vs
  unfolding select update
  select-update_other q f [] hf hq = refl
  select-update_other q f (v ∷ vs) hf hq =
      ground (arith, hf v, hq v, select-update_other q f vs hf hq)

  pub mark-Frames : (i : ℕ) (s : VaultStatus) → i ≢ k → Frames (exec (db_mark_vault_as i s))
  unfolding db_mark_vault_as
  mark-Frames i s ne w q = (
    q.0,
    select-update_other (has_id i) (with_status w.db.now s) w.db.vaults (λ v. refl)
        (λ v e. ground (arith, ne)),
  )

  pub confirm_unvault-Frames :
      (txid i : ℕ)
      → exists (is_tx_of txid i) txs ≡ true
      → i ≢ k
      → Frames (exec (db_confirm_unvault txid))
  unfolding db_confirm_unvault db_status_from_unvault_txid has_tx
  confirm_unvault-Frames txid i own ne w q = (
    q.0,
    select-update_other (has_tx w.db.presigned txid) (with_status w.db.now unvaulted) w.db.vaults
        (λ v. refl) other,
  )
    where
      other : (v : DbVault) → has_id k v ≡ true → has_tx w.db.presigned txid v ≡ false
      other v e = elim (Bool-cases (has_tx w.db.presigned txid v)) [
        | inr n ↦ n
        | inl y ↦
            let id : v.id ≡ k = ground arith in
            absurd (
              ne (
                one txid i k own (
                  subst (λ j. exists (is_tx_of txid j) txs ≡ true) id
                    (subst (λ ts. exists (is_tx_of txid v.id) ts ≡ true) q.0 y))))
      ]

  pub lift-Frames {ℓ κ} :
      {A : Type ℓ} {B : Type κ} (r : Res A) (f : A → Run B)
      → ((a : A) → r ≡ ok a → Frames (f a))
      → Frames (lift r >>= f)
  lift-Frames (ok a) f hf w q = hf a refl w q
  lift-Frames (err e) f hf w q = (q.0, refl)

-- The row that a query answers is in the table.
exists_of_row {ℓ} :
    {A : Type ℓ} (p q : A → Bool) (xs : List A) {x : A}
    → pop (select p xs) ≡ some x
    → q x ≡ true
    → exists q xs ≡ true
unfolding pop select exists
exists_of_row p q [] h hq = cc
exists_of_row p q (y ∷ xs) {x} h hq = ground (arith, exists_of_row p q xs {x = x})

pub unvault_row-owned :
    (db : Db) (i : ℕ) (r : DbTransaction)
    → db_unvault_transaction db i ≡ ok r
    → exists (is_tx_of r.psbt.txid i) db.presigned ≡ true
unfolding db_unvault_transaction presigned_tx
unvault_row-owned db i r h =
    exists_of_row (is_tx i unvault) (is_tx_of r.psbt.txid i) db.presigned row
      (ground (arith, pop-select (is_tx i unvault) db.presigned row, ==_refl r.psbt.txid))
  where
    row : pop (select (is_tx i unvault) db.presigned) ≡ some r
    row = ground arith

module _ (k : ℕ) (txs : List DbTransaction) where
  -- A row of a join, of a vault other than `k` with a transaction of it.
  abbrev pub Apart : DbVault × DbTransaction → Type 0
  Apart x = (x.0.id ≢ k) × (exists (is_tx_of x.1.psbt.txid x.0.id) txs ≡ true)

  pub rows_owned :
      (rows : List DbTransaction)
      → ((q : DbTransaction → Bool) → exists q rows ≡ true → exists q txs ≡ true)
      → All (λ (r : DbTransaction). exists (is_tx_of r.psbt.txid r.vault_id) txs ≡ true) rows
  unfolding exists
  rows_owned [] h = tt
  rows_owned (r ∷ rows) h = (
    h (is_tx_of r.psbt.txid r.vault_id) (ground (arith, ==_refl r.psbt.txid, ==_refl r.vault_id)),
    rows_owned rows (λ q e. h q (ground arith)),
  )

  pairs-Apart :
      (v : DbVault) (p : DbVault → DbTransaction → Bool) (rows : List DbTransaction)
      → ((r : DbTransaction) → p v r ≡ true → v.id ≢ k)
      → All (λ (r : DbTransaction). exists (is_tx_of r.psbt.txid r.vault_id) txs ≡ true) rows
      → All Apart (map (λ r. (v, r)) (select (λ r. r.vault_id == v.id && p v r) rows))
  unfolding select
  pairs-Apart v p [] hp h = tt
  pairs-Apart v p (r ∷ rows) hp h = elim (Bool-cases (r.vault_id == v.id && p v r)) [
    | inr e ↦ rw e (pairs-Apart v p rows hp h.1)
    | inl e ↦
        let id : r.vault_id ≡ v.id = ground arith in
        rw e (
          (hp r (ground arith), subst (λ j. exists (is_tx_of r.psbt.txid j) txs ≡ true) id h.0),
          pairs-Apart v p rows hp h.1,
        )
  ]

  pub join-Apart :
      (p : DbVault → DbTransaction → Bool) (vs : List DbVault)
      → ((v : DbVault) (r : DbTransaction) → p v r ≡ true → is_pending v ≡ true)
      → exists is_pending (select (has_id k) vs) ≡ false
      → All (λ (r : DbTransaction). exists (is_tx_of r.psbt.txid r.vault_id) txs ≡ true) txs
      → All Apart (join_txs p vs txs)
  unfolding join_txs select exists
  join-Apart p [] hp quiet h = tt
  join-Apart p (v ∷ vs) hp quiet h =
      All-append Apart (map (λ r. (v, r)) (select (λ r. r.vault_id == v.id && p v r) txs))
        (join_txs p vs txs) (pairs-Apart v p txs (λ r e same. ground (arith, hp v r e)) h)
        (join-Apart p vs hp (ground arith) h)
