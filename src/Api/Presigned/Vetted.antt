-- ===== src/Api/Presigned/Vetted.antt =====
-- src/daemon/jsonrpc/api.rs: what the checks of `revocationtxs` establish about the vault,
-- the signer and every signature.
pub mod Activation
use revaultd.Prelude.{
  ℕ, ◌≡◌, ◌≢◌, arith, true, some, List, [], ◌∷◌, All, ok, map_err, ◌>>◌, >>=-eq-ok, guard-eq-ok,
  ok_or-eq-ok, map_err-eq-ok,
}
use revaultd.Status.{VaultStatus, status_eq, funded, secured}
use revaultd.Sigs.{PubKey, Bytes, SigMap, contains_key}
use revaultd.Database.Schema.{
  OutPoint, Psbt, TransactionType, unvault, cancel, emergency, unvault_emergency, DbVault,
  DbTransaction, Db,
}
use revaultd.Database.Interface.{
  presigned_tx, db_vault_by_deposit, db_unvault_transaction, db_cancel_transaction,
  db_emer_transaction, db_unvault_emer_transaction,
}
use revaultd.Control.Signatures.{
  SigHashType, all, all_plus_anyone_can_pay, Secp, check_revocation_signatures,
  check_unvault_signatures,
}
use revaultd.Control.Signatures.Presigned.{
  IsSigned, check_revocation_signatures-IsSigned, check_unvault_signatures-IsSigned,
}
use revaultd.Control.Session.{
  invalid_signature, no_own_signature, unknown_key, aborted, from_sig_error, Daemon,
}
use revaultd.Control.Keys.{contains, stakeholders_xpubs_at, our_stk_xpub_at}
use revaultd.Api.Role.{UserRole, manager, stakeholder_only}
use revaultd.Api.Presigned.Checks.{
  vault_at, signed_by, known_keys, RevocationTxs, RevocationRows, matching_rows, own_signatures,
  only_stakeholders, valid_revocation, valid_signatures, revocation_sigs_checks,
  unvault_sigs_checks, revocation_checks, unvault_checks,
}

-- The vault at the outpoint has the status.
abbrev pub IsVaultAt : OutPoint → VaultStatus → Db → DbVault → Type 0
IsVaultAt outpoint required db vault =
    (db_vault_by_deposit db outpoint ≡ some vault) × (status_eq vault.status required ≡ true)

-- A key that the map has is one of these.
abbrev pub AreAmong : List PubKey → SigMap → Type 0
AreAmong keys sigs = All (λ (entry : PubKey × Bytes). contains keys entry.0 ≡ true) sigs

pub stakeholder_only-ok : (role : UserRole) → stakeholder_only role ≡ ok tt → role ≢ manager
unfolding stakeholder_only
stakeholder_only-ok role h = ground (arith, h)

pub vault_at-IsVaultAt :
    (outpoint : OutPoint) (required named : VaultStatus) (db : Db) (vault : DbVault)
    → vault_at outpoint required named db ≡ ok vault
    → IsVaultAt outpoint required db vault
unfolding vault_at
vault_at-IsVaultAt outpoint required named db vault h = ground (arith, h)

pub known_keys-AreAmong :
    (stk_keys : List PubKey) (t : TransactionType) (sigs : SigMap)
    → known_keys stk_keys t sigs ≡ ok tt
    → AreAmong stk_keys sigs
unfolding known_keys
known_keys-AreAmong stk_keys t [] h = tt
known_keys-AreAmong stk_keys t ((k, s) ∷ sigs) h =
    let (e, h') =
      guard-eq-ok (unknown_key t k) (contains stk_keys k) (known_keys stk_keys t sigs) h in
    (e, known_keys-AreAmong stk_keys t sigs h')

matching_rows-ok :
    (vault_id : ℕ) (txs : RevocationTxs) (db : Db) (rows : RevocationRows)
    → matching_rows vault_id txs db ≡ ok rows
    → (presigned_tx db vault_id cancel ≡ some rows.cancel_row)
      × (txs.cancel_tx.wtxid ≡ rows.cancel_row.psbt.wtxid)
      × (presigned_tx db vault_id emergency ≡ some rows.emer_row)
      × (txs.emergency_tx.wtxid ≡ rows.emer_row.psbt.wtxid)
      × (presigned_tx db vault_id unvault_emergency ≡ some rows.unemer_row)
      × (txs.unvault_emergency_tx.wtxid ≡ rows.unemer_row.psbt.wtxid)
unfolding matching_rows db_cancel_transaction db_emer_transaction db_unvault_emer_transaction
matching_rows-ok vault_id txs db rows h = ground (arith, h)

own_signatures-ok :
    (k : PubKey) (txs : RevocationTxs)
    → own_signatures k txs ≡ ok tt
    → (contains_key txs.cancel_tx.partial_sigs k ≡ true)
      × (contains_key txs.emergency_tx.partial_sigs k ≡ true)
      × (contains_key txs.unvault_emergency_tx.partial_sigs k ≡ true)
unfolding own_signatures
own_signatures-ok k txs h = ground (arith, h)

-- The row is the vault's of the type, the transaction is the same, its input is signed by the own
-- key, and by no key but these, and all its signatures are valid.
abbrev pub IsAccepted :
    Secp
    → Db
    → ℕ
    → TransactionType
    → SigHashType
    → PubKey
    → List PubKey
    → Psbt
    → DbTransaction
    → Type 0
IsAccepted secp db vault_id t hashtype own keys tx row =
    (presigned_tx db vault_id t ≡ some row)
    × (tx.wtxid ≡ row.psbt.wtxid)
    × (contains_key tx.partial_sigs own ≡ true)
    × AreAmong keys tx.partial_sigs
    × IsSigned secp tx hashtype tx.partial_sigs

module _ (secp : Secp) (daemon : Daemon) where
  valid_revocation-IsSigned :
      (t : TransactionType) (tx : Psbt)
      → valid_revocation secp t tx ≡ ok tt
      → IsSigned secp tx all_plus_anyone_can_pay tx.partial_sigs
  valid_revocation-IsSigned t tx h =
      (check_revocation_signatures-IsSigned secp tx tx.partial_sigs).0 (
        map_err-eq-ok (from_sig_error (invalid_signature t))
          (check_revocation_signatures secp tx tx.partial_sigs) h)

  -- The three transactions have signatures by the own key, by no key but these, and only valid ones.
  abbrev AreWellSigned : PubKey → List PubKey → RevocationTxs → Type 0
  AreWellSigned own keys txs =
      ((contains_key txs.cancel_tx.partial_sigs own ≡ true)
        × (contains_key txs.emergency_tx.partial_sigs own ≡ true)
        × (contains_key txs.unvault_emergency_tx.partial_sigs own ≡ true))
      × (AreAmong keys txs.cancel_tx.partial_sigs
          × AreAmong keys txs.emergency_tx.partial_sigs
          × AreAmong keys txs.unvault_emergency_tx.partial_sigs)
      × (IsSigned secp txs.cancel_tx all_plus_anyone_can_pay txs.cancel_tx.partial_sigs
          × IsSigned secp txs.emergency_tx all_plus_anyone_can_pay txs.emergency_tx.partial_sigs
          × IsSigned secp txs.unvault_emergency_tx all_plus_anyone_can_pay
              txs.unvault_emergency_tx.partial_sigs)

  only_stakeholders-AreAmong :
      (keys : List PubKey) (txs : RevocationTxs)
      → only_stakeholders keys txs ≡ ok tt
      → AreAmong keys txs.cancel_tx.partial_sigs
        × AreAmong keys txs.emergency_tx.partial_sigs
        × AreAmong keys txs.unvault_emergency_tx.partial_sigs
  unfolding only_stakeholders
  only_stakeholders-AreAmong keys txs h =
      let among = known_keys-AreAmong keys in
      (
        among cancel txs.cancel_tx.partial_sigs (ground (arith, h)),
        among emergency txs.emergency_tx.partial_sigs (ground (arith, h)),
        among unvault_emergency txs.unvault_emergency_tx.partial_sigs (ground (arith, h)),
      )

  valid_signatures-IsSigned :
      (txs : RevocationTxs)
      → valid_signatures secp txs ≡ ok tt
      → IsSigned secp txs.cancel_tx all_plus_anyone_can_pay txs.cancel_tx.partial_sigs
        × IsSigned secp txs.emergency_tx all_plus_anyone_can_pay txs.emergency_tx.partial_sigs
        × IsSigned secp txs.unvault_emergency_tx all_plus_anyone_can_pay
            txs.unvault_emergency_tx.partial_sigs
  unfolding valid_signatures
  valid_signatures-IsSigned txs h = (
    valid_revocation-IsSigned cancel txs.cancel_tx (ground (arith, h)),
    valid_revocation-IsSigned emergency txs.emergency_tx (ground (arith, h)),
    valid_revocation-IsSigned unvault_emergency txs.unvault_emergency_tx (ground (arith, h)),
  )

  revocation_sigs_checks-AreWellSigned :
      (index : ℕ) (txs : RevocationTxs)
      → revocation_sigs_checks secp daemon index txs ≡ ok tt
      → (own : PubKey) × (our_stk_xpub_at secp daemon index ≡ some own)
        × AreWellSigned own (stakeholders_xpubs_at secp daemon index) txs
  unfolding revocation_sigs_checks
  revocation_sigs_checks-AreWellSigned index txs h =
      let keys = stakeholders_xpubs_at secp daemon index in
      let (own, e, h1) =
        ok_or-eq-ok aborted (our_stk_xpub_at secp daemon index)
          (λ own. do own_signatures own txs; only_stakeholders keys txs; valid_signatures secp txs)
          h in
      let (u, h2, h3) =
        >>=-eq-ok (own_signatures own txs)
          (λ _. only_stakeholders keys txs >> valid_signatures secp txs) h1 in
      let (u', h4, h5) =
        >>=-eq-ok (only_stakeholders keys txs) (λ _. valid_signatures secp txs) h3 in
      (
        own,
        e,
        (
          own_signatures-ok own txs h2,
          only_stakeholders-AreAmong keys txs h4,
          valid_signatures-IsSigned txs h5,
        ),
      )

  module _ (role : UserRole) (outpoint : OutPoint) (db : Db) where
    -- What `revocationtxs` has established of the vault and the rows when its checks are passed.
    abbrev pub IsVetted : RevocationTxs → DbVault → RevocationRows → Type 0
    IsVetted txs vault rows =
        (role ≢ manager)
        × IsVaultAt outpoint funded db vault
        × ((own : PubKey) × (our_stk_xpub_at secp daemon vault.derivation_index ≡ some own)
            × IsAccepted secp db vault.id cancel all_plus_anyone_can_pay own
                (stakeholders_xpubs_at secp daemon vault.derivation_index) txs.cancel_tx
                rows.cancel_row
            × IsAccepted secp db vault.id emergency all_plus_anyone_can_pay own
                (stakeholders_xpubs_at secp daemon vault.derivation_index) txs.emergency_tx
                rows.emer_row
            × IsAccepted secp db vault.id unvault_emergency all_plus_anyone_can_pay own
                (stakeholders_xpubs_at secp daemon vault.derivation_index) txs.unvault_emergency_tx
                rows.unemer_row)

    pub revocation_checks-IsVetted :
        (txs : RevocationTxs) (vault : DbVault) (rows : RevocationRows)
        → revocation_checks secp daemon role outpoint txs db ≡ ok (vault, rows)
        → IsVetted txs vault rows
    unfolding revocation_checks
    revocation_checks-IsVetted txs vault rows h =
        let (e1, e2, e3, e4) = parts in
        let (w1, w2, w3, w4, w5, w6) = matching_rows-ok vault.id txs db rows e3 in
        let (own, e, ((o1, o2, o3), (a1, a2, a3), (s1, s2, s3))) =
          revocation_sigs_checks-AreWellSigned vault.derivation_index txs e4 in
        (
          stakeholder_only-ok role e1,
          vault_at-IsVaultAt outpoint funded funded db vault e2,
          (own, e, (w1, w2, o1, a1, s1), (w3, w4, o2, a2, s2), (w5, w6, o3, a3, s3)),
        )
      where
        parts :
            (stakeholder_only role ≡ ok tt)
            × (vault_at outpoint funded funded db ≡ ok vault)
            × (matching_rows vault.id txs db ≡ ok rows)
            × (revocation_sigs_checks secp daemon vault.derivation_index txs ≡ ok tt)
        parts = ground (arith, h)
