-- ===== src/Control/Signatures/Presigned.antt =====
-- src/daemon/control.rs: the signatures of a presigned transaction pass the check exactly if each of
-- them is valid.
use revaultd.Prelude.{
  ℕ, ◌≡◌, ◌↔◌, refl, true, false, not, some, [], ◌∷◌, ◌==◌, arith, All, ok, Result, guard, ok_or,
  ◌>>=◌, ◌>>◌, >>=-eq-ok, guard-eq-ok, ok_or-eq-ok,
}
use revaultd.Sigs.{PubKey, Bytes, SigMap}
use revaultd.Database.Schema.{Psbt}
use revaultd.Control.Signatures.{
  SigHashType, all, all_plus_anyone_can_pay, SigError, invalid_length, invalid_sighash, verif_error,
  insane_transaction, tx_error, Secp, split_last, is_allowed, presigned_tx_sighash, check_signature,
  check_all, check_revocation_signatures, check_unvault_signatures,
}

-- The last byte is the flag, and the others encode a signature of the hash by the key.
abbrev pub IsValid : Secp → ℕ → SigHashType → PubKey × Bytes → Type 0
IsValid secp sighash hashtype (pubkey, sig) =
    (raw : Bytes) × (signature : ℕ) × (split_last sig ≡ some (secp.as_u8 hashtype, raw))
    × (secp.from_der raw ≡ some signature)
    × (secp.verify sighash signature pubkey ≡ true)

-- A transaction that can be signed, with the hash to sign.
abbrev pub IsSignable : Secp → SigHashType → Psbt → ℕ → Type 0
IsSignable secp hashtype tx sighash =
    (tx.inputs ≡ 1) × (tx.is_finalized ≡ false) × (secp.signature_hash tx hashtype ≡ some sighash)

module _ (secp : Secp) (sighash : ℕ) (hashtype : SigHashType) where
  pub check_signature-IsValid :
      (k : PubKey) (s : Bytes)
      → check_signature secp sighash hashtype k s ≡ ok tt
      → IsValid secp sighash hashtype (k, s)
  unfolding check_signature
  check_signature-IsValid k s h =
      let (parts, e1, h1) =
        ok_or-eq-ok invalid_length (split_last s)
          (λ parts. do
            guard invalid_sighash (parts.0 == secp.as_u8 hashtype)
            signature ← ok_or verif_error (secp.from_der parts.1)
            guard verif_error (secp.verify sighash signature k))
          h in
      let (e2, h2) =
        guard-eq-ok invalid_sighash (parts.0 == secp.as_u8 hashtype)
          (do
            signature ← ok_or verif_error (secp.from_der parts.1)
            guard verif_error (secp.verify sighash signature k))
          h1 in
      let (signature, e3, h3) =
        ok_or-eq-ok verif_error (secp.from_der parts.1)
          (λ signature. guard verif_error (secp.verify sighash signature k)) h2 in
      (parts.1, signature, ground (arith, e1, e2), e3, ground (arith, h3))

  pub IsValid-check_signature :
      (k : PubKey) (s : Bytes)
      → IsValid secp sighash hashtype (k, s)
      → check_signature secp sighash hashtype k s ≡ ok tt
  unfolding check_signature
  IsValid-check_signature k s (raw, signature, e1, e2, e3) = ground (arith, e1, e2, e3)

  pub check_all-IsValid :
      (sigs : SigMap)
      → check_all secp sighash hashtype sigs ≡ ok tt
      → All (IsValid secp sighash hashtype) sigs
  unfolding check_all
  check_all-IsValid [] h = tt
  check_all-IsValid ((k, s) ∷ sigs) h =
      let (u, h1, h2) =
        >>=-eq-ok (check_signature secp sighash hashtype k s)
          (λ _. check_all secp sighash hashtype sigs) h in
      (check_signature-IsValid k s h1, check_all-IsValid sigs h2)

  pub IsValid-check_all :
      (sigs : SigMap)
      → All (IsValid secp sighash hashtype) sigs
      → check_all secp sighash hashtype sigs ≡ ok tt
  unfolding check_all
  IsValid-check_all [] h = refl
  IsValid-check_all ((k, s) ∷ sigs) h =
      ground (arith, IsValid-check_signature k s h.0, IsValid-check_all sigs h.1)

module _ (secp : Secp) (tx : Psbt) (hashtype : SigHashType) where
  presigned_tx_sighash-IsSignable :
      (sighash : ℕ)
      → presigned_tx_sighash secp tx hashtype ≡ ok sighash
      → IsSignable secp hashtype tx sighash
  unfolding presigned_tx_sighash
  presigned_tx_sighash-IsSignable sighash h =
      let (e1, h1) =
        guard-eq-ok insane_transaction (tx.inputs == 1)
          (do
            guard insane_transaction (not tx.is_finalized)
            guard invalid_sighash (is_allowed hashtype)
            ok_or tx_error (secp.signature_hash tx hashtype))
          h in
      let (e2, h2) =
        guard-eq-ok insane_transaction (not tx.is_finalized)
          (do
            guard invalid_sighash (is_allowed hashtype)
            ok_or tx_error (secp.signature_hash tx hashtype))
          h1 in
      let (e3, h3) =
        guard-eq-ok invalid_sighash (is_allowed hashtype)
          (ok_or tx_error (secp.signature_hash tx hashtype)) h2 in
      (ground (arith, e1), ground (arith, e2), ground (arith, h3))

  IsSignable-presigned_tx_sighash :
      (sighash : ℕ)
      → is_allowed hashtype ≡ true
      → IsSignable secp hashtype tx sighash
      → presigned_tx_sighash secp tx hashtype ≡ ok sighash
  unfolding presigned_tx_sighash
  IsSignable-presigned_tx_sighash sighash allowed (e1, e2, e3) = ground (arith, allowed, e1, e2, e3)

  -- What the check of a transaction with these signatures means.
  abbrev pub IsSigned : SigMap → Type 0
  IsSigned sigs =
      (sighash : ℕ) × IsSignable secp hashtype tx sighash × All (IsValid secp sighash hashtype) sigs

  abbrev checked : SigMap → Result SigError (Unit {0})
  checked sigs =
      presigned_tx_sighash secp tx hashtype >>= (λ sighash. check_all secp sighash hashtype sigs)

  checked-IsSigned :
      is_allowed hashtype ≡ true → (sigs : SigMap) → (checked sigs ≡ ok tt) ↔ IsSigned sigs
  checked-IsSigned allowed sigs = (
    (λ h.
        let (sighash, h1, h2) =
          >>=-eq-ok (presigned_tx_sighash secp tx hashtype)
            (λ sighash. check_all secp sighash hashtype sigs) h in
        (
          sighash,
          presigned_tx_sighash-IsSignable sighash h1,
          check_all-IsValid secp sighash hashtype sigs h2,
        )),
    (λ (sighash, signable, valid). ground (
      arith,
      IsSignable-presigned_tx_sighash sighash allowed signable,
      IsValid-check_all secp sighash hashtype sigs valid,
    )),
  )

-- A transaction and signatures pass `check_revocation_signatures` exactly if the transaction has one
-- input, is not finalized and has a hash to sign, and each of the signatures ends with the byte of
-- ALL|ANYONECANPAY, after an encoding of a signature of that hash by its key.
pub check_revocation_signatures-IsSigned :
    (secp : Secp) (tx : Psbt) (sigs : SigMap)
    → (check_revocation_signatures secp tx sigs ≡ ok tt)
      ↔ IsSigned secp tx all_plus_anyone_can_pay sigs
unfolding check_revocation_signatures
check_revocation_signatures-IsSigned secp tx sigs =
    checked-IsSigned secp tx all_plus_anyone_can_pay refl sigs

-- A transaction passes `check_unvault_signatures` exactly if it has one input, is not finalized and
-- has a hash to sign, and each of its signatures ends with the byte of ALL, after an encoding of a
-- signature of that hash by its key.
pub check_unvault_signatures-IsSigned :
    (secp : Secp) (tx : Psbt)
    → (check_unvault_signatures secp tx ≡ ok tt) ↔ IsSigned secp tx all tx.partial_sigs
unfolding check_unvault_signatures
check_unvault_signatures-IsSigned secp tx = checked-IsSigned secp tx all refl tx.partial_sigs

-- A transaction passes `check_revocation_signatures` with signatures, and `check_unvault_signatures`
-- with its own, exactly if it has one input, is not finalized and has a hash to sign, and each of the
-- signatures ends with the byte of ALL|ANYONECANPAY, or of ALL, after an encoding of a signature of
-- that hash by its key.
pub presigned_checks_iff :
    (secp : Secp) (tx : Psbt) (sigs : SigMap)
    → ((check_revocation_signatures secp tx sigs ≡ ok tt)
        ↔ IsSigned secp tx all_plus_anyone_can_pay sigs)
      × ((check_unvault_signatures secp tx ≡ ok tt) ↔ IsSigned secp tx all tx.partial_sigs)
presigned_checks_iff secp tx sigs =
    (check_revocation_signatures-IsSigned secp tx sigs, check_unvault_signatures-IsSigned secp tx)
