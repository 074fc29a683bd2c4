-- ===== src/Control/Signatures.antt =====
-- src/daemon/control.rs: the checks of signatures. `Secp` is what they take from the libraries
-- bitcoin and secp256k1.
pub mod Presigned
pub mod Spend
use revaultd.Prelude.{
  ℕ, suc, ◌+◌, Bool, true, false, not, Option, none, some, List, [], ◌∷◌, ◌==◌, ◌||◌, ltb,
  if◌then◌else◌, Result, ok, err, ok_or, guard, ◌>>=◌, ◌>>◌,
}
use revaultd.Sigs.{PubKey, Bytes, SigMap, get}
use revaultd.Database.Schema.{Txid, Psbt, SpendPsbt, DbVault}

pub data SigHashType : Type 0 where
  all none_ single all_plus_anyone_can_pay none_plus_anyone_can_pay : SigHashType
  single_plus_anyone_can_pay : SigHashType

pub data SigError : Type 0 where
  invalid_length invalid_sighash verif_error insane_transaction tx_error : SigError
  not_enough_signatures : ℕ → ℕ → SigError
  -- an `expect` failed
  panicked : SigError

pub record Secp : Type 0 where
  pub as_u8 : SigHashType → ℕ
  -- the hash that a signature of the input 0 is over
  pub signature_hash : Psbt → SigHashType → Option ℕ
  -- the same of a Spend, at an input
  pub spend_signature_hash : SpendPsbt → ℕ → SigHashType → Option ℕ
  pub from_der : Bytes → Option ℕ
  pub verify : ℕ → ℕ → PubKey → Bool
  -- the key of an xpub at a derivation index
  pub derive : ℕ → ℕ → PubKey

-- `sig.split_last()`: the last byte and those before it.
unfoldable pub split_last : Bytes → Option (ℕ × Bytes)
split_last [] = none
split_last (b ∷ bs) = elim (split_last bs) [ none ↦ some (b, []) | some (l, r) ↦ some (l, b ∷ r) ]

-- `hashtype != All && hashtype != AllPlusAnyoneCanPay`
abbrev pub is_allowed : SigHashType → Bool
is_allowed all = true
is_allowed all_plus_anyone_can_pay = true
is_allowed _ = false

module _ (secp : Secp) where
  unfoldable pub presigned_tx_sighash : Psbt → SigHashType → Result SigError ℕ
  presigned_tx_sighash tx hashtype = do
    guard insane_transaction (tx.inputs == 1)
    guard insane_transaction (not tx.is_finalized)
    guard invalid_sighash (is_allowed hashtype)
    ok_or tx_error (secp.signature_hash tx hashtype)

  -- The body of the loops below: the flag, the encoding and the signature.
  unfoldable pub check_signature : ℕ → SigHashType → PubKey → Bytes → Result SigError (Unit {0})
  unfolding split_last
  check_signature sighash hashtype pubkey sig = do
    parts ← ok_or invalid_length (split_last sig)
    guard invalid_sighash (parts.0 == secp.as_u8 hashtype)
    signature ← ok_or verif_error (secp.from_der parts.1)
    guard verif_error (secp.verify sighash signature pubkey)

  unfoldable pub check_all : ℕ → SigHashType → SigMap → Result SigError (Unit {0})
  unfolding check_signature
  check_all sighash hashtype [] = ok tt
  check_all sighash hashtype ((pubkey, sig) ∷ sigs) =
      check_signature sighash hashtype pubkey sig >> check_all sighash hashtype sigs

  unfoldable pub check_revocation_signatures : Psbt → SigMap → Result SigError (Unit {0})
  unfolding presigned_tx_sighash check_all
  check_revocation_signatures tx sigs = do
    sighash ← presigned_tx_sighash tx all_plus_anyone_can_pay
    check_all sighash all_plus_anyone_can_pay sigs

  unfoldable pub check_unvault_signatures : Psbt → Result SigError (Unit {0})
  unfolding presigned_tx_sighash check_all
  check_unvault_signatures tx = do
    sighash ← presigned_tx_sighash tx all
    check_all sighash all tx.partial_sigs

  -- `for pubkey in managers_pubkeys`: a key that has not signed is passed over, and a signature that
  -- is there must be valid.
  unfoldable pub count_valid : ℕ → SigMap → ℕ → List ℕ → ℕ → Result SigError ℕ
  unfolding check_signature get
  count_valid sighash sigs index [] valid_sigs = ok valid_sigs
  count_valid sighash sigs index (xpub ∷ xpubs) valid_sigs =
      elim (get sigs (secp.derive xpub index)) [
        | none ↦ count_valid sighash sigs index xpubs valid_sigs
        | some sig ↦
            check_signature sighash all (secp.derive xpub index) sig
            >> count_valid sighash sigs index xpubs (valid_sigs + 1)
      ]

  module _ (managers_threshold : ℕ) (psbt : SpendPsbt) (managers_xpubs : List ℕ)
      (db_vaults : Txid → Option DbVault) where
    unfoldable pub check_input : ℕ → Txid → SigMap → Result SigError (Unit {0})
    unfolding count_valid
    check_input i unvault_txid sigs = do
      sighash ← ok_or panicked (secp.spend_signature_hash psbt i all)
      db_vault ← ok_or panicked (db_vaults unvault_txid)
      valid_sigs ← count_valid sighash sigs db_vault.derivation_index managers_xpubs 0
      guard (not_enough_signatures managers_threshold valid_sigs)
          (not (ltb valid_sigs managers_threshold))

    -- `for (i, psbtin) in inputs.iter().enumerate()`, with `unsigned_tx.input[i]`
    unfoldable pub check_inputs : ℕ → List Txid → List SigMap → Result SigError (Unit {0})
    unfolding check_input
    check_inputs i txids [] = ok tt
    check_inputs i [] (sigs ∷ rest) = err panicked
    check_inputs i (txid ∷ txids) (sigs ∷ rest) =
        check_input i txid sigs >> check_inputs (suc i) txids rest

    unfoldable pub check_spend_signatures : Result SigError (Unit {0})
    unfolding check_inputs
    check_spend_signatures = do
      guard insane_transaction (not psbt.is_finalized)
      check_inputs 0 psbt.unvault_txids psbt.input_sigs
