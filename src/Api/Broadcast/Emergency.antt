-- ===== src/Api/Broadcast/Emergency.antt =====
-- src/daemon/jsonrpc/api.rs: `emergency` sends the Emergency of every vault that has a signed one.
use mathlib.Core.List.{Memᴰ}
use mathlib.Core.List.Memᴰ
use revaultd.Prelude.{
  if◌then◌else◌, ◌≡◌, ◌⊎◌, ◌≢◌, inl, inr, refl, ap, subst, sym, ◌∙◌, arith, Bool, true, ◌==◌, ◌&&◌,
  some, List, [], ◌∷◌, ◌++◌, map, select, map_err, ok, >>=-eq-ok, ok_or-eq-ok, map_err-eq-ok,
  Bool-cases, ◌>>=◌ as and_then,
}
use revaultd.Prelude.Stateful.{after}
use revaultd.Fault.{revault_tx}
use revaultd.Status.{VaultStatus}
use revaultd.Database.Schema.{
  Psbt, DbVault, DbTransaction, Db, TransactionType, unvault_emergency, type_eq,
}
use revaultd.Database.Queries.{
  flat_map, signed_txs, db_signed_emer_txs, db_signed_unemer_txs, is_before_unvault,
  is_unvault_unspent,
}
use revaultd.Control.Signatures.{Secp}
use revaultd.Control.Session.{from_fault, broadcast, Session, Net}
use revaultd.Control.Coordinator.{Txs, bitcoind_broadcast}
use revaultd.Control.Vaults.{finalize_all, finalized_emer_txs}
use revaultd.Api.Role.{UserRole, stakeholder_only, manager}
use revaultd.Control.Session.Steps.{lift-after}
use revaultd.Api.Presigned.Vetted.{stakeholder_only-ok}
use revaultd.Api.Broadcast.{emergency}

select-member :
    {A : Type 0} (p : A → Bool) {x : A} (xs : List A)
    → p x ≡ true
    → Memᴰ x xs
    → Memᴰ x (select p xs)
unfolding select
select-member p [] h m = m
select-member p {x} (y ∷ ys) h (Memᴰ.head e) =
    subst (λ b. Memᴰ x (if b then y ∷ select p ys else select p ys)) {x = true} {y = p y}
      (sym (subst (λ z. p z ≡ true) e h)) (Memᴰ.head e)
select-member p {x} (y ∷ ys) h (Memᴰ.tail m) = elim (Bool-cases (p y)) [
  | inl e ↦ rw e (Memᴰ.tail (select-member p ys h m))
  | inr e ↦ rw e (select-member p ys h m)
]

flat_map-member :
    {A : Type 0} {B : Type 0} (f : A → List B) {x : A} {b : B} (xs : List A)
    → Memᴰ x xs
    → Memᴰ b (f x)
    → Memᴰ b (flat_map f xs)
unfolding flat_map
flat_map-member f [] m m' = absurd (Memᴰ.not-nil m)
flat_map-member f {b = b} (y ∷ ys) (Memᴰ.head e) m' =
    Memᴰ.append_left (flat_map f ys) (subst (λ z. Memᴰ b (f z)) e m')
flat_map-member f (y ∷ ys) (Memᴰ.tail m) m' = Memᴰ.append_right (f y) (flat_map-member f ys m m')

-- A fully signed transaction of the type, of a vault with such a status.
abbrev pub IsOnCall : TransactionType → (VaultStatus → Bool) → Db → Psbt → Type 0
IsOnCall t p db psbt =
    (row : DbTransaction) × (vault : DbVault) × (row.psbt ≡ psbt)
    × Memᴰ row db.presigned
    × Memᴰ vault db.vaults
    × (vault.id == row.vault_id ≡ true)
    × (row.is_fully_signed ≡ true)
    × (type_eq row.tx_type t ≡ true)
    × (p vault.status ≡ true)

signed_txs-IsOnCall :
    (t : TransactionType) (p : VaultStatus → Bool) (db : Db) (psbt : Psbt)
    → IsOnCall t p db psbt
    → Memᴰ psbt (signed_txs t p db)
unfolding signed_txs
signed_txs-IsOnCall t p db psbt (row, vault, e, in_rows, in_vaults, same, signed, typed, passed) =
    flat_map-member
      (λ (ptx : DbTransaction).
        map (λ (v : DbVault). ptx.psbt)
          (select (λ (v : DbVault). v.id == ptx.vault_id && p v.status) db.vaults))
      (select (λ (ptx : DbTransaction). ptx.is_fully_signed && type_eq ptx.tx_type t) db.presigned)
      (select-member (λ (ptx : DbTransaction). ptx.is_fully_signed && type_eq ptx.tx_type t)
        db.presigned (ground (arith, signed, typed)) in_rows)
      (Memᴰ.cast (sym e) (
        Memᴰ.map (λ (v : DbVault). row.psbt)
          (select-member (λ (v : DbVault). v.id == row.vault_id && p v.status) db.vaults
            (ground (arith, same, passed)) in_vaults)))

module _ (txs : Txs) where
  finalize_all-member :
      (psbts : List Psbt) (finals : List Psbt) {psbt : Psbt}
      → finalize_all txs psbts ≡ ok finals
      → Memᴰ psbt psbts
      → (final : Psbt) × (txs.finalize psbt ≡ some final) × Memᴰ final finals
  unfolding finalize_all
  finalize_all-member [] finals h m = absurd (Memᴰ.not-nil m)
  finalize_all-member (x ∷ xs) finals {psbt} h m =
      let (final, e, h1) =
        ok_or-eq-ok revault_tx (txs.finalize x)
          (λ final. and_then (finalize_all txs xs) (λ rest. ok (final ∷ rest))) h in
      let (rest, e', h2) = >>=-eq-ok (finalize_all txs xs) (λ rest. ok (final ∷ rest)) h1 in
      let finals_eq : (final ∷ rest) ≡ finals = ground (arith, h2) in
      elim (Memᴰ.cases_cons m) [
        | inl same ↦ (
          final,
          ap txs.finalize same ∙ e,
          subst (Memᴰ final) {x = final ∷ rest} {y = finals} finals_eq (Memᴰ.head refl),
        )
        | inr m' ↦
            let (final', e2, m2) = finalize_all-member xs rest e' m' in
            (
              final',
              e2,
              subst (Memᴰ final') {x = final ∷ rest} {y = finals} finals_eq (Memᴰ.tail m2),
            )
      ]

module _ (secp : Secp) (servers : Net) (txs : Txs) where
  broadcast-ok :
      (finals : List Psbt) (s s' : Session) {final : Psbt}
      → bitcoind_broadcast secp servers finals s ≡ (ok tt, s')
      → Memᴰ final finals
      → s' ≡ record s { log = broadcast finals ∷ s.log }
  unfolding bitcoind_broadcast
  broadcast-ok [] s s' h m = absurd (Memᴰ.not-nil m)
  broadcast-ok (final ∷ finals) s s' h m = ground (arith, h)

  abbrev pub IsBatched : UserRole → Psbt → Session → Session → Type 0
  IsBatched role psbt s s' =
      (finals : List Psbt) × (final : Psbt) × (role ≢ manager)
      × (txs.finalize psbt ≡ some final)
      × Memᴰ final finals
      × (s' ≡ record s { log = broadcast finals ∷ s.log })

  -- If `emergency` returns, the caller is not a manager only, and the final version of each fully
  -- signed Emergency transaction of a vault with a status before 'unvaulting', and of each fully
  -- signed UnvaultEmergency transaction of a vault that is 'unvaulting', 'unvaulted', 'spending' or
  -- 'canceling', is in the one batch that was sent to bitcoind.
  pub emergency_complete :
      (role : UserRole) (s s' : Session) (psbt : Psbt)
      → emergency secp servers txs role s ≡ (ok tt, s')
      → IsOnCall TransactionType.emergency is_before_unvault s.db psbt
        ⊎ IsOnCall unvault_emergency is_unvault_unspent s.db psbt
      → IsBatched role psbt s s'
  unfolding emergency finalized_emer_txs db_signed_emer_txs db_signed_unemer_txs
  emergency_complete role s s' psbt h call =
      let (u, e, h1) =
        lift-after (stakeholder_only role) s
          (λ _ w.
            after (map_err from_fault (finalized_emer_txs txs w.db), w)
              (λ emers. bitcoind_broadcast secp servers emers))
          h in
      let (finals, e1, h2) =
        lift-after (map_err from_fault (finalized_emer_txs txs s.db)) s
          (λ emers. bitcoind_broadcast secp servers emers) h1 in
      let (final, e2, m) =
        finalize_all-member txs (db_signed_emer_txs s.db ++ db_signed_unemer_txs s.db) finals
          (map_err-eq-ok from_fault (finalized_emer_txs txs s.db) e1) (listed call) in
      (finals, final, stakeholder_only-ok role e, e2, m, broadcast-ok finals s s' h2 m)
    where
      listed :
          IsOnCall TransactionType.emergency is_before_unvault s.db psbt
            ⊎ IsOnCall unvault_emergency is_unvault_unspent s.db psbt
          → Memᴰ psbt (db_signed_emer_txs s.db ++ db_signed_unemer_txs s.db)
      listed (inl c) =
          Memᴰ.append_left (db_signed_unemer_txs s.db)
            (signed_txs-IsOnCall TransactionType.emergency is_before_unvault s.db psbt c)
      listed (inr c) =
          Memᴰ.append_right (db_signed_emer_txs s.db)
            (signed_txs-IsOnCall unvault_emergency is_unvault_unspent s.db psbt c)
