-- ===== src/Control/Vaults.antt =====
-- src/daemon/control.rs: the lists that the RPC gives of the vaults and of their transactions.
pub mod Listing
use revaultd.Prelude.{
  ℕ, Bool, true, false, not, Option, none, some, List, [], ◌∷◌, ◌++◌, map, exists, select, Result,
  ok, err, ok_or, map_err, if◌then◌else◌,
}
use revaultd.Prelude.{◌>>=◌, ◌>>◌, guard}
use revaultd.Fault.{Fault, Res, revault_tx, panic}
use revaultd.Status.{VaultStatus, status_eq, unconfirmed}
use revaultd.Database.Schema.{Txid, OutPoint, outpoint_eq, Psbt, DbVault, DbTransaction, Db}
use revaultd.Database.Interface.{
  db_vault_by_deposit, db_unvault_transaction, db_cancel_transaction, db_emer_transaction,
  db_unvault_emer_transaction,
}
use revaultd.Database.Queries.{db_signed_emer_txs, db_signed_unemer_txs}
use revaultd.Control.Coordinator.{Txs}

-- The address of the deposit descriptor at an index, from the library.
pub record ListVaultsEntry : Type 0 where
  pub amount : ℕ
  pub blockheight : ℕ
  pub status : VaultStatus
  pub deposit_outpoint : OutPoint
  pub derivation_index : ℕ
  pub address : ℕ
  pub received_at : ℕ
  pub updated_at : ℕ

abbrev pub passes {ℓ} : {A : Type ℓ} → (A → A → Bool) → Option (List A) → A → Bool
passes eq none x = true
passes eq (some xs) x = exists (λ y. eq y x) xs

abbrev pub entry_of : (ℕ → ℕ) → DbVault → ListVaultsEntry
entry_of vault_address v = record {
  amount = v.amount;
  blockheight = v.blockheight;
  status = v.status;
  deposit_outpoint = v.deposit_outpoint;
  derivation_index = v.derivation_index;
  address = vault_address v.derivation_index;
  received_at = v.received_at;
  updated_at = v.updated_at;
}

-- The `filter_map` of `listvaults_from_db`.
unfoldable pub listed_vaults :
    (ℕ → ℕ)
    → Option (List VaultStatus)
    → Option (List OutPoint)
    → List DbVault
    → List ListVaultsEntry
listed_vaults vault_address statuses outpoints [] = []
listed_vaults vault_address statuses outpoints (v ∷ vs) =
    let rest = listed_vaults vault_address statuses outpoints vs in
    if not (passes status_eq statuses v.status)
    then rest
    else if not (passes outpoint_eq outpoints v.deposit_outpoint)
    then rest
    else entry_of vault_address v ∷ rest

unfoldable pub listvaults_from_db :
    (ℕ → ℕ) → Option (List VaultStatus) → Option (List OutPoint) → Db → List ListVaultsEntry
unfolding listed_vaults
listvaults_from_db vault_address statuses outpoints db =
    listed_vaults vault_address statuses outpoints db.vaults

pub data RpcControlError : Type 0 where
  invalid_status : VaultStatus → OutPoint → RpcControlError
  unknown_outpoint : OutPoint → RpcControlError

unfoldable pub vaults_from_deposits :
    Db → List OutPoint → List VaultStatus → Result RpcControlError (List DbVault)
vaults_from_deposits db [] invalid_statuses = ok []
vaults_from_deposits db (outpoint ∷ outpoints) invalid_statuses = do
  vault ← ok_or (unknown_outpoint outpoint) (db_vault_by_deposit db outpoint)
  guard (invalid_status vault.status outpoint)
      (not (exists (λ s. status_eq s vault.status) invalid_statuses))
  vaults ← vaults_from_deposits db outpoints invalid_statuses
  ok (vault ∷ vaults)

-- A transaction with its final version, if it is fully signed.
pub record VaultPresignedTransaction : Type 0 where
  pub psbt : Psbt
  pub transaction : Option Psbt

pub record VaultPresignedTransactions : Type 0 where
  pub outpoint : OutPoint
  pub unvault : VaultPresignedTransaction
  pub cancel : VaultPresignedTransaction
  pub emergency : Option VaultPresignedTransaction
  pub unvault_emergency : Option VaultPresignedTransaction

module _ (txs : Txs) where
  abbrev pub with_final : Psbt → VaultPresignedTransaction
  with_final psbt = record { psbt = psbt; transaction = txs.finalize psbt }

  -- The Emergency transactions, for a stakeholder.
  abbrev pub emergencies :
      Bool → Db → ℕ → Res (Option VaultPresignedTransaction × Option VaultPresignedTransaction)
  emergencies false db vault_id = ok (none, none)
  emergencies true db vault_id = do
    emer ← ok_or panic (db_emer_transaction db vault_id)
    unemer ← ok_or panic (db_unvault_emer_transaction db vault_id)
    ok (some (with_final emer.psbt), some (with_final unemer.psbt))

  unfoldable pub presigned_txs : Bool → Db → List DbVault → Res (List VaultPresignedTransactions)
  presigned_txs is_stakeholder db [] = ok []
  presigned_txs is_stakeholder db (db_vault ∷ db_vaults) = do
    unvault ← db_unvault_transaction db db_vault.id
    cancel ← ok_or panic (db_cancel_transaction db db_vault.id)
    emers ← emergencies is_stakeholder db db_vault.id
    rest ← presigned_txs is_stakeholder db db_vaults
    ok (
        record {
          outpoint = db_vault.deposit_outpoint;
          unvault = with_final unvault.psbt;
          cancel = with_final cancel.psbt;
          emergency = emers.0;
          unvault_emergency = emers.1;
        }
        ∷ rest)

  -- `map(finalize)` and `collect`, which stops at the first failure
  unfoldable pub finalize_all : List Psbt → Res (List Psbt)
  finalize_all [] = ok []
  finalize_all (tx ∷ rest) = do
    final ← ok_or revault_tx (txs.finalize tx)
    finals ← finalize_all rest
    ok (final ∷ finals)

  unfoldable pub finalized_emer_txs : Db → Res (List Psbt)
  unfolding finalize_all
  finalized_emer_txs db = finalize_all (db_signed_emer_txs db ++ db_signed_unemer_txs db)
