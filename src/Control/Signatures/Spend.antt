-- ===== src/Control/Signatures/Spend.antt =====
-- src/daemon/control.rs: the managers' signatures of a Spend pass the check exactly if they are valid
-- and enough.
use revaultd.Prelude.{
  ℕ, suc, ◌+◌, ◌≤◌, ◌≡◌, ◌↔◌, refl, subst, false, not, Option, some, List, [], ◌∷◌, arith, All,
  select, length, ltb, ok, guard, ok_or, ◌>>=◌, >>=-eq-ok, guard-eq-ok, ok_or-eq-ok, Option-cases,
  inl, inr,
}
use revaultd.Sigs.{Bytes, SigMap, get, contains_key}
use revaultd.Database.Schema.{Txid, SpendPsbt, DbVault}
use revaultd.Control.Signatures.{
  all, insane_transaction, not_enough_signatures, panicked, Secp, check_signature, count_valid,
  check_input, check_inputs, check_spend_signatures,
}
use revaultd.Control.Signatures.Presigned.{
  IsValid, check_signature-IsValid, IsValid-check_signature,
}

module _ (secp : Secp) (sighash : ℕ) (sigs : SigMap) (index : ℕ) where
  -- The manager's key has not signed, or its signature is valid.
  abbrev pub IsFine : ℕ → Type 0
  IsFine xpub =
      (sig : Bytes)
      → get sigs (secp.derive xpub index) ≡ some sig
      → IsValid secp sighash all (secp.derive xpub index, sig)

  -- How many of the managers have signed.
  abbrev pub signers : List ℕ → ℕ
  signers xpubs = length (select (λ xpub. contains_key sigs (secp.derive xpub index)) xpubs)

  count_valid-IsFine :
      (xpubs : List ℕ) (n m : ℕ)
      → count_valid secp sighash sigs index xpubs n ≡ ok m
      → All IsFine xpubs × (m ≡ n + signers xpubs)
  unfolding count_valid select contains_key
  count_valid-IsFine [] n m h = (tt, ground (arith, h))
  count_valid-IsFine (xpub ∷ xpubs) n m h =
      elim (Option-cases (get sigs (secp.derive xpub index))) [
        | inl e ↦
            let (fine, count) = count_valid-IsFine xpubs n m (ground (arith, h, e)) in
            (((λ sig e'. absurd (ground (arith, e, e'))), fine), ground (arith, count, e))
        | inr (sig, e) ↦
            let (u, h1, h2) =
              >>=-eq-ok (check_signature secp sighash all (secp.derive xpub index) sig)
                (λ _. count_valid secp sighash sigs index xpubs (n + 1)) {b = m}
                (ground (arith, h, e)) in
            let (fine, count) = count_valid-IsFine xpubs (n + 1) m h2 in
            (
              (
                (λ sig' e'.
                    subst (λ s. IsValid secp sighash all (secp.derive xpub index, s)) {x = sig}
                      {y = sig'} (ground (arith, e, e'))
                      (check_signature-IsValid secp sighash all (secp.derive xpub index) sig h1)),
                fine,
              ),
              ground (arith, count, e),
            )
      ]

  IsFine-count_valid :
      (xpubs : List ℕ) (n : ℕ)
      → All IsFine xpubs
      → count_valid secp sighash sigs index xpubs n ≡ ok (n + signers xpubs)
  unfolding count_valid select contains_key
  IsFine-count_valid [] n h = ground arith
  IsFine-count_valid (xpub ∷ xpubs) n h = elim (Option-cases (get sigs (secp.derive xpub index))) [
    | inl e ↦ ground (arith, e, IsFine-count_valid xpubs n h.1)
    | inr (sig, e) ↦ ground (
      arith,
      e,
      IsValid-check_signature secp sighash all (secp.derive xpub index) sig (h.0 sig e),
      IsFine-count_valid xpubs (n + 1) h.1,
    )
  ]

module _ (secp : Secp) (managers_threshold : ℕ) (psbt : SpendPsbt) (xpubs : List ℕ)
    (db_vaults : Txid → Option DbVault) where
  -- The input spends the Unvault of a vault, and enough managers have signed it, all validly.
  abbrev pub IsInputSigned : ℕ → Txid → SigMap → Type 0
  IsInputSigned i txid sigs =
      (sighash : ℕ) × (vault : DbVault) × (secp.spend_signature_hash psbt i all ≡ some sighash)
      × (db_vaults txid ≡ some vault)
      × All (IsFine secp sighash sigs vault.derivation_index) xpubs
      × (managers_threshold ≤ signers secp sighash sigs vault.derivation_index xpubs)

  abbrev pub AreInputsSigned : ℕ → List Txid → List SigMap → Type 0
  AreInputsSigned i txids [] = Unit
  AreInputsSigned i [] (sigs ∷ rest) = ⊥
  AreInputsSigned i (txid ∷ txids) (sigs ∷ rest) =
      IsInputSigned i txid sigs × AreInputsSigned (suc i) txids rest

  check_input-IsInputSigned :
      (i : ℕ) (txid : Txid) (sigs : SigMap)
      → check_input secp managers_threshold psbt xpubs db_vaults i txid sigs ≡ ok tt
      → IsInputSigned i txid sigs
  unfolding check_input
  check_input-IsInputSigned i txid sigs h =
      let (sighash, e1, h1) =
        ok_or-eq-ok panicked (secp.spend_signature_hash psbt i all)
          (λ sighash. do
            db_vault ← ok_or panicked (db_vaults txid)
            valid_sigs ← count_valid secp sighash sigs db_vault.derivation_index xpubs 0
            guard (not_enough_signatures managers_threshold valid_sigs)
                (not (ltb valid_sigs managers_threshold)))
          h in
      let (db_vault, e2, h2) =
        ok_or-eq-ok panicked (db_vaults txid)
          (λ db_vault. do
            valid_sigs ← count_valid secp sighash sigs db_vault.derivation_index xpubs 0
            guard (not_enough_signatures managers_threshold valid_sigs)
                (not (ltb valid_sigs managers_threshold)))
          h1 in
      let (valid_sigs, e3, h3) =
        >>=-eq-ok (count_valid secp sighash sigs db_vault.derivation_index xpubs 0)
          (λ valid_sigs.
            guard (not_enough_signatures managers_threshold valid_sigs)
              (not (ltb valid_sigs managers_threshold)))
          h2 in
      let (fine, count) =
        count_valid-IsFine secp sighash sigs db_vault.derivation_index xpubs 0 valid_sigs e3 in
      (sighash, db_vault, e1, e2, fine, ground (arith, h3, count))

  IsInputSigned-check_input :
      (i : ℕ) (txid : Txid) (sigs : SigMap)
      → IsInputSigned i txid sigs
      → check_input secp managers_threshold psbt xpubs db_vaults i txid sigs ≡ ok tt
  unfolding check_input
  IsInputSigned-check_input i txid sigs (sighash, vault, e1, e2, fine, enough) = ground (
    arith,
    e1,
    e2,
    IsFine-count_valid secp sighash sigs vault.derivation_index xpubs 0 fine,
    enough,
  )

  check_inputs-AreInputsSigned :
      (i : ℕ) (txids : List Txid) (inputs : List SigMap)
      → check_inputs secp managers_threshold psbt xpubs db_vaults i txids inputs ≡ ok tt
      → AreInputsSigned i txids inputs
  unfolding check_inputs
  check_inputs-AreInputsSigned i txids [] h = tt
  check_inputs-AreInputsSigned i [] (sigs ∷ rest) h = cc
  check_inputs-AreInputsSigned i (txid ∷ txids) (sigs ∷ rest) h =
      let (u, h1, h2) =
        >>=-eq-ok (check_input secp managers_threshold psbt xpubs db_vaults i txid sigs)
          (λ _. check_inputs secp managers_threshold psbt xpubs db_vaults (suc i) txids rest) h in
      (check_input-IsInputSigned i txid sigs h1, check_inputs-AreInputsSigned (suc i) txids rest h2)

  AreInputsSigned-check_inputs :
      (i : ℕ) (txids : List Txid) (inputs : List SigMap)
      → AreInputsSigned i txids inputs
      → check_inputs secp managers_threshold psbt xpubs db_vaults i txids inputs ≡ ok tt
  unfolding check_inputs
  AreInputsSigned-check_inputs i txids [] h = refl
  AreInputsSigned-check_inputs i [] (sigs ∷ rest) h = absurd h
  AreInputsSigned-check_inputs i (txid ∷ txids) (sigs ∷ rest) (h, hs) = ground (
    arith,
    IsInputSigned-check_input i txid sigs h,
    AreInputsSigned-check_inputs (suc i) txids rest hs,
  )

  -- `check_spend_signatures` accepts a Spend exactly if it is not finalized and each of its inputs
  -- has a hash to sign and spends the Unvault of a vault that the map has, no manager's key at the
  -- derivation index of the vault has an invalid signature there, and at least as many of the
  -- managers' keys as the threshold have signed.
  pub check_spend_signatures-AreInputsSigned :
      (check_spend_signatures secp managers_threshold psbt xpubs db_vaults ≡ ok tt)
      ↔ ((psbt.is_finalized ≡ false) × AreInputsSigned 0 psbt.unvault_txids psbt.input_sigs)
  unfolding check_spend_signatures
  check_spend_signatures-AreInputsSigned = (
    (λ h.
        let (e, h1) =
          guard-eq-ok insane_transaction (not psbt.is_finalized)
            (check_inputs secp managers_threshold psbt xpubs db_vaults 0 psbt.unvault_txids
              psbt.input_sigs)
            h in
        (ground (arith, e), check_inputs-AreInputsSigned 0 psbt.unvault_txids psbt.input_sigs h1)),
    (λ (e, signed).
        ground
          (arith, e, AreInputsSigned-check_inputs 0 psbt.unvault_txids psbt.input_sigs signed)),
  )
