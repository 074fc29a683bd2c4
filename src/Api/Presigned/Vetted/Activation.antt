-- ===== src/Api/Presigned/Vetted/Activation.antt =====
-- src/daemon/jsonrpc/api.rs: what the checks of `unvaulttx` establish.
use revaultd.Prelude.{
  ℕ, ◌≡◌, ◌≢◌, arith, true, some, ok, map_err, ◌>>◌, >>=-eq-ok, guard-eq-ok, ok_or-eq-ok,
  map_err-eq-ok,
}
use revaultd.Status.{funded, secured}
use revaultd.Sigs.{PubKey, contains_key}
use revaultd.Database.Schema.{OutPoint, Psbt, unvault, cancel, DbVault, DbTransaction, Db}
use revaultd.Database.Interface.{presigned_tx, db_unvault_transaction}
use revaultd.Control.Signatures.{all, Secp, check_unvault_signatures}
use revaultd.Control.Signatures.Presigned.{IsSigned, check_unvault_signatures-IsSigned}
use revaultd.Control.Session.{invalid_signature, no_own_signature, aborted, from_sig_error, Daemon}
use revaultd.Control.Keys.{stakeholders_xpubs_at, our_stk_xpub_at}
use revaultd.Api.Role.{UserRole, manager, stakeholder_only}
use revaultd.Api.Presigned.Checks.{
  vault_at, signed_by, known_keys, unvault_sigs_checks, unvault_checks,
}
use revaultd.Api.Presigned.Vetted.{
  IsVaultAt, IsAccepted, AreAmong, stakeholder_only-ok, vault_at-IsVaultAt, known_keys-AreAmong,
}

module _ (secp : Secp) (daemon : Daemon) where
  unvault_sigs_checks-ok :
      (index : ℕ) (tx : Psbt)
      → unvault_sigs_checks secp daemon index tx ≡ ok tt
      → (own : PubKey) × (our_stk_xpub_at secp daemon index ≡ some own)
        × (contains_key tx.partial_sigs own ≡ true)
        × AreAmong (stakeholders_xpubs_at secp daemon index) tx.partial_sigs
        × IsSigned secp tx all tx.partial_sigs
  unfolding unvault_sigs_checks
  unvault_sigs_checks-ok index tx h =
      let keys = stakeholders_xpubs_at secp daemon index in
      let valid =
        map_err (from_sig_error (invalid_signature unvault)) (check_unvault_signatures secp tx) in
      let (own, e, h1) =
        ok_or-eq-ok aborted (our_stk_xpub_at secp daemon index)
          (λ own. do signed_by own unvault tx; known_keys keys cancel tx.partial_sigs; valid) h in
      let (o, h2) =
        guard-eq-ok (no_own_signature unvault) (contains_key tx.partial_sigs own)
          (known_keys keys cancel tx.partial_sigs >> valid) h1 in
      let (u, h3, h4) = >>=-eq-ok (known_keys keys cancel tx.partial_sigs) (λ _. valid) h2 in
      (
        own,
        e,
        o,
        known_keys-AreAmong keys cancel tx.partial_sigs h3,
        (check_unvault_signatures-IsSigned secp tx).0 (
            map_err-eq-ok (from_sig_error (invalid_signature unvault))
              (check_unvault_signatures secp tx) h4),
      )

  module _ (role : UserRole) (outpoint : OutPoint) (db : Db) where
    -- What `unvaulttx` has established of the vault and the row.
    abbrev pub IsUnvaultVetted : Psbt → DbVault → DbTransaction → Type 0
    IsUnvaultVetted tx vault row =
        (role ≢ manager)
        × IsVaultAt outpoint secured db vault
        × ((own : PubKey) × (our_stk_xpub_at secp daemon vault.derivation_index ≡ some own)
            × IsAccepted secp db vault.id unvault all own
                (stakeholders_xpubs_at secp daemon vault.derivation_index) tx row)

    pub unvault_checks-IsUnvaultVetted :
        (tx : Psbt) (vault : DbVault) (row : DbTransaction)
        → unvault_checks secp daemon role outpoint tx db ≡ ok (vault, row)
        → IsUnvaultVetted tx vault row
    unfolding unvault_checks db_unvault_transaction
    unvault_checks-IsUnvaultVetted tx vault row h =
        let (e1, e2, e3, e4, e5) = parts in
        let (own, e, o, a, s) = unvault_sigs_checks-ok vault.derivation_index tx e5 in
        (
          stakeholder_only-ok role e1,
          vault_at-IsVaultAt outpoint secured funded db vault e2,
          (own, e, (e3, e4, o, a, s)),
        )
      where
        parts :
            (stakeholder_only role ≡ ok tt)
            × (vault_at outpoint secured funded db ≡ ok vault)
            × (presigned_tx db vault.id unvault ≡ some row)
            × (tx.wtxid ≡ row.psbt.wtxid)
            × (unvault_sigs_checks secp daemon vault.derivation_index tx ≡ ok tt)
        parts = ground (arith, h)
