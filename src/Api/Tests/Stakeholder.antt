-- ===== src/Api/Tests/Stakeholder.antt =====
-- The signatures of the stakeholder are checked, stored and shared.
use revaultd.Prelude.{◌≡◌, ◌⊎◌, ◌↔◌, refl, true, [], ◌∷◌, ok, tables}
use revaultd.Prelude.Stateful.{each}
use revaultd.Status.{funded, secured}
use revaultd.Sigs.{SigMap, get, contains_key, insert, extend}
use revaultd.Database.Schema.{DbVault, DbTransaction, cancel, emergency, unvault_emergency}
use revaultd.Database.Interface.{
  presigned_tx, db_vault_by_deposit, db_unvault_transaction, db_cancel_transaction,
  db_emer_transaction, db_unvault_emer_transaction,
}
use revaultd.Database.Presigned.{db_update_presigned_tx, revault_tx_merge_sigs, upgrade_status}
use revaultd.Database.Marks.{db_mark_securing_vault, db_mark_activating_vault}
use revaultd.Control.Signatures.{
  all_plus_anyone_can_pay, all, split_last, presigned_tx_sighash, check_signature, check_all,
  check_revocation_signatures, check_unvault_signatures,
}
use revaultd.Control.Signatures.Presigned.{IsSigned, presigned_checks_iff}
use revaultd.Control.Session.{Session}
use revaultd.Control.Keys.{contains}
use revaultd.Control.Coordinator.{
  send_sig, send_sig_msg, share_rev_signatures, share_unvault_signatures,
}
use revaultd.Control.Coordinator.Sharing.{ends_well}
use revaultd.Api.Role.{manager_stakeholder, stakeholder_only}
use revaultd.Api.Presigned.Checks.{
  vault_at, known_keys, RevocationTxs, RevocationRows, matching_rows, own_signatures,
  only_stakeholders, valid_signatures, revocation_sigs_checks, unvault_sigs_checks,
  revocation_checks, unvault_checks,
}
use revaultd.Api.Presigned.Commands.{
  with_own, store_revocations, store_and_share, revocationtxs, store_and_share_unvault, unvaulttx,
}
use revaultd.Api.Presigned.Vetted.{IsVetted}
use revaultd.Api.Presigned.Vetted.Activation.{IsUnvaultVetted}
use revaultd.Api.Presigned.Effects
use revaultd.Api.Presigned.Effects.{revocationtxs-ok, revocationtxs-IsVetted}
use revaultd.Api.Presigned.Unvault
use revaultd.Api.Presigned.Unvault.{unvaulttx-ok, unvaulttx-IsUnvaultVetted}
use revaultd.Api.Presigned.Shared.{share_rev_signatures-ends_well}
use revaultd.Api.Tests.{curve, signed, point, vault, row, session, servers, daemon, not_final}

abbrev revocations : RevocationTxs
revocations = record {
  cancel_tx = signed 129 12;
  emergency_tx = signed 129 13;
  unvault_emergency_tx = signed 129 14;
}

abbrev after_revocationtxs : Session
after_revocationtxs =
    (revocationtxs curve not_final servers daemon manager_stakeholder point revocations
      (session funded)).1

revocationtxs_returns :
    revocationtxs curve not_final servers daemon manager_stakeholder point revocations
      (session funded)
    ≡ (ok tt, after_revocationtxs)
unfolding revocationtxs revocation_checks revocation_sigs_checks stakeholder_only vault_at
    known_keys matching_rows own_signatures only_stakeholders valid_signatures store_revocations
    store_and_share share_rev_signatures send_sig send_sig_msg each contains contains_key get
    db_vault_by_deposit presigned_tx db_cancel_transaction db_emer_transaction
    db_unvault_emer_transaction db_update_presigned_tx revault_tx_merge_sigs upgrade_status insert
    extend split_last presigned_tx_sighash check_signature check_all check_revocation_signatures
    db_mark_securing_vault tables
revocationtxs_returns = refl

revocationtxs-ok_example :
    Effects.IsRecorded curve not_final servers daemon manager_stakeholder point revocations
      (session funded)
      after_revocationtxs
revocationtxs-ok_example =
    revocationtxs-ok curve not_final servers daemon manager_stakeholder point revocations
      (session funded) after_revocationtxs revocationtxs_returns

revocationtxs-IsVetted_example :
    (after_revocationtxs ≡ session funded)
    ⊎ ((v : DbVault) × (rows : RevocationRows) × IsVetted curve daemon manager_stakeholder point
          (session funded).db
          revocations
          v
          rows)
revocationtxs-IsVetted_example =
    revocationtxs-IsVetted curve not_final servers daemon manager_stakeholder point revocations
      (session funded)

abbrev checked_rows : RevocationRows
checked_rows = record {
  cancel_row = row 2 cancel 12;
  emer_row = row 3 emergency 13;
  unemer_row = row 4 unvault_emergency 14;
}

checks_pass :
    revocation_checks curve daemon manager_stakeholder point revocations (session funded).db
    ≡ ok (vault funded, checked_rows)
unfolding revocation_checks revocation_sigs_checks stakeholder_only vault_at known_keys
    matching_rows own_signatures only_stakeholders valid_signatures contains contains_key get
    db_vault_by_deposit presigned_tx db_cancel_transaction db_emer_transaction
    db_unvault_emer_transaction split_last presigned_tx_sighash check_signature check_all
    check_revocation_signatures tables
checks_pass = refl

share_rev_signatures-ends_well_example :
    ends_well
      (share_rev_signatures curve servers daemon
        (with_own (signed 129 12))
        (with_own (signed 129 13))
        (with_own (signed 129 14))
        (session funded)).0
    ≡ true
share_rev_signatures-ends_well_example =
    share_rev_signatures-ends_well curve servers daemon manager_stakeholder point revocations
      (vault funded) checked_rows (session funded) (session funded) checks_pass

abbrev after_unvaulttx : Session
after_unvaulttx =
    (unvaulttx curve not_final servers daemon manager_stakeholder point (signed 1 11)
      (session secured)).1

unvaulttx_returns :
    unvaulttx curve not_final servers daemon manager_stakeholder point
      (signed 1 11)
      (session secured)
    ≡ (ok tt, after_unvaulttx)
unfolding unvaulttx unvault_checks unvault_sigs_checks stakeholder_only vault_at known_keys
    store_and_share_unvault share_unvault_signatures send_sig send_sig_msg each contains
    contains_key get db_vault_by_deposit presigned_tx db_unvault_transaction db_update_presigned_tx
    revault_tx_merge_sigs upgrade_status insert extend split_last presigned_tx_sighash
    check_signature check_all check_unvault_signatures db_mark_activating_vault tables
unvaulttx_returns = refl

unvaulttx-ok_example :
    Unvault.IsRecorded curve not_final servers daemon manager_stakeholder point
      (signed 1 11)
      (session secured)
      after_unvaulttx
unvaulttx-ok_example =
    unvaulttx-ok curve not_final servers daemon manager_stakeholder point (signed 1 11)
      (session secured) after_unvaulttx unvaulttx_returns

unvaulttx-IsUnvaultVetted_example :
    (after_unvaulttx ≡ session secured)
    ⊎ ((v : DbVault) × (r : DbTransaction) × IsUnvaultVetted curve daemon manager_stakeholder point
          (session secured).db
          (signed 1 11)
          v
          r)
unvaulttx-IsUnvaultVetted_example =
    unvaulttx-IsUnvaultVetted curve not_final servers daemon manager_stakeholder point (signed 1 11)
      (session secured)

abbrev own_sigs : SigMap
own_sigs = (3, 48 ∷ 129 ∷ []) ∷ []

presigned_checks_iff_example :
    ((check_revocation_signatures curve (signed 129 12) own_sigs ≡ ok tt)
      ↔ IsSigned curve (signed 129 12) all_plus_anyone_can_pay own_sigs)
    × ((check_unvault_signatures curve (signed 129 12) ≡ ok tt)
        ↔ IsSigned curve (signed 129 12) all (signed 129 12).partial_sigs)
presigned_checks_iff_example = presigned_checks_iff curve (signed 129 12) own_sigs
