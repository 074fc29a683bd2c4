-- ===== src/Database/Deposits/Store.antt =====
-- The rows that `db_store_unsigned_transactions!` adds: of the given vault, unsigned, with new ids.
use revaultd.Prelude.{
  ℕ, ◌≤◌, ◌≡◌, refl, ap, false, Option, none, some, List, [], ◌∷◌, ◌++◌, map, ◌==◌, exists, ok,
  arith, All, All-append, exists-append, All-imp, >>=-eq-ok,
}
use mathlib.Core.List.{append_assoc}
use revaultd.Database.Schema.{
  Psbt, TransactionType, unvault, cancel, emergency, unvault_emergency, DbTransaction, Db,
}
use revaultd.Database.Presigned.{has_tx_id}
use revaultd.Database.Deposits.{next_id, presigned_ids, store_unsigned, store_all}

-- The id of a new row is no row's.
pub next_id_fresh {ℓ} :
    {A : Type ℓ} (id_of : A → ℕ) (xs : List A) (n : ℕ)
    → next_id (map id_of xs) ≤ n
    → exists (λ x. id_of x == n) xs ≡ false
unfolding next_id exists
next_id_fresh id_of [] n h = refl
next_id_fresh id_of (x ∷ xs) n h = ground (arith, next_id_fresh id_of xs n)

-- The row is of the vault, unsigned, and its id is new.
abbrev pub IsNew : ℕ → Db → DbTransaction → Type 0
IsNew vault_id db r =
    (r.vault_id ≡ vault_id)
    × (r.is_fully_signed ≡ false)
    × (exists (has_tx_id r.id) db.presigned ≡ false)

-- The second database is the first with new rows.
pub record Stores (vault_id : ℕ) (db db' : Db) : Type 0 where
  pub rows : List DbTransaction
  pub stored : db' ≡ record db { presigned = db.presigned ++ rows }
  pub are_new : All (IsNew vault_id db) rows

pub store_unsigned-Stores :
    (k : ℕ) (t : TransactionType) (tx : Psbt) (db : Db) {db' : Db}
    → store_unsigned k t tx db ≡ ok db'
    → Stores k db db'
unfolding store_unsigned
store_unsigned-Stores k t tx db {db'} h = record {
  rows =
      record {
        id = next_id (presigned_ids db);
        vault_id = k;
        tx_type = t;
        psbt = tx;
        is_fully_signed = false;
      }
      ∷ [];
  stored = ground (arith, h);
  are_new =
      ((refl, refl, next_id_fresh (λ (r : DbTransaction). r.id) db.presigned _ (omega arith)), tt);
}

Stores-trans : {k : ℕ} {a b c : Db} → Stores k a b → Stores k b c → Stores k a c
Stores-trans {k} {a} {b} {c} s t = record {
  rows = s.rows ++ t.rows;
  stored = cc (s.stored, t.stored, append_assoc a.presigned s.rows t.rows);
  are_new = All-append (IsNew k a) s.rows t.rows s.are_new (All-imp older t.rows t.are_new);
}
  where
    older : (r : DbTransaction) → IsNew k b r → IsNew k a r
    older r n = (
      n.0,
      n.1,
      ground (
        arith,
        exists-append (has_tx_id r.id) a.presigned s.rows,
        n,
        ap (λ (d : Db). exists (has_tx_id r.id) d.presigned) s.stored,
      ),
    )

pub store_all-Stores :
    (k : ℕ) (unvault_tx cancel_tx : Psbt) (emer_tx unemer_tx : Option Psbt) (db : Db) {db' : Db}
    → store_all k unvault_tx cancel_tx emer_tx unemer_tx db ≡ ok db'
    → Stores k db db'
unfolding store_all
store_all-Stores k u c (some e) (some f) db h =
    let (d1, s1, h1) = >>=-eq-ok (store_unsigned k unvault u db) _ h in
    let (d2, s2, h2) = >>=-eq-ok (store_unsigned k cancel c d1) _ h1 in
    let (d3, s3, h3) = >>=-eq-ok (store_unsigned k emergency e d2) _ h2 in
    Stores-trans (store_unsigned-Stores k unvault u db s1) (
      Stores-trans (store_unsigned-Stores k cancel c d1 s2) (
        Stores-trans (store_unsigned-Stores k emergency e d2 s3)
          (store_unsigned-Stores k unvault_emergency f d3 h3)))
store_all-Stores k u c none none db h =
    let (d1, s1, h1) = >>=-eq-ok (store_unsigned k unvault u db) _ h in
    Stores-trans (store_unsigned-Stores k unvault u db s1) (store_unsigned-Stores k cancel c d1 h1)
store_all-Stores k u c _ _ db h = cc
