-- ===== src/Api/Presigned/Checks.antt =====
-- src/daemon/jsonrpc/api.rs: what `revocationtxs` and `unvaulttx` check before they store or
-- send anything.
use revaultd.Prelude.{ℕ, ◌==◌, ltb, List, [], ◌∷◌, Result, ok, ok_or, guard, map_err, ◌>>=◌, ◌>>◌}
use revaultd.Status.{VaultStatus, status_eq, funded, secured}
use revaultd.Sigs.{PubKey, SigMap, contains_key}
use revaultd.Database.Schema.{
  OutPoint, Psbt, TransactionType, unvault, cancel, emergency, unvault_emergency, DbVault,
  DbTransaction, Db,
}
use revaultd.Database.Interface.{
  db_vault_by_deposit, db_unvault_transaction, db_cancel_transaction, db_emer_transaction,
  db_unvault_emer_transaction,
}
use revaultd.Control.Signatures.{Secp, check_revocation_signatures, check_unvault_signatures}
use revaultd.Control.Session.{
  Refusal, unknown_outpoint, invalid_status, invalid_tx, no_own_signature, unknown_key,
  invalid_signature, aborted, from_fault, from_sig_error, Daemon,
}
use revaultd.Control.Keys.{contains, stakeholders_xpubs_at, our_stk_xpub_at}
use revaultd.Api.Role.{UserRole, stakeholder_only}

-- The vault at the outpoint, which must have the status; the message names another one.
unfoldable pub vault_at : OutPoint → VaultStatus → VaultStatus → Db → Result Refusal DbVault
vault_at outpoint required named db = do
  db_vault ← ok_or (unknown_outpoint outpoint) (db_vault_by_deposit db outpoint)
  guard (invalid_status db_vault.status named) (status_eq db_vault.status required)
  ok db_vault

-- `if rpc_txid != db_txid`
abbrev pub same_tx : TransactionType → Psbt → DbTransaction → Result Refusal (Unit {0})
same_tx t tx row = guard (invalid_tx t) (tx.wtxid == row.psbt.wtxid)

-- `inputs.get(0).expect(…)`
abbrev pub has_input : Psbt → Result Refusal (Unit {0})
has_input tx = guard aborted (ltb 0 tx.inputs)

abbrev pub signed_by : PubKey → TransactionType → Psbt → Result Refusal (Unit {0})
signed_by our_pubkey t tx = guard (no_own_signature t) (contains_key tx.partial_sigs our_pubkey)

-- `if !stk_keys.contains(key)`
unfoldable pub known_keys : List PubKey → TransactionType → SigMap → Result Refusal (Unit {0})
known_keys stk_keys t [] = ok tt
known_keys stk_keys t ((key, _) ∷ sigs) =
    guard (unknown_key t key) (contains stk_keys key) >> known_keys stk_keys t sigs

-- The transactions that the call gives.
pub record RevocationTxs : Type 0 where
  pub cancel_tx : Psbt
  pub emergency_tx : Psbt
  pub unvault_emergency_tx : Psbt

-- The rows of a vault that they belong to.
pub record RevocationRows : Type 0 where
  pub cancel_row : DbTransaction
  pub emer_row : DbTransaction
  pub unemer_row : DbTransaction

unfoldable pub matching_rows : ℕ → RevocationTxs → Db → Result Refusal RevocationRows
matching_rows vault_id txs db = do
  cancel_row ← ok_or aborted (db_cancel_transaction db vault_id)
  same_tx cancel txs.cancel_tx cancel_row
  emer_row ← ok_or aborted (db_emer_transaction db vault_id)
  same_tx emergency txs.emergency_tx emer_row
  unemer_row ← ok_or aborted (db_unvault_emer_transaction db vault_id)
  same_tx unvault_emergency txs.unvault_emergency_tx unemer_row
  ok record { cancel_row = cancel_row; emer_row = emer_row; unemer_row = unemer_row }

unfoldable pub own_signatures : PubKey → RevocationTxs → Result Refusal (Unit {0})
own_signatures our_pubkey txs = do
  signed_by our_pubkey cancel txs.cancel_tx
  signed_by our_pubkey emergency txs.emergency_tx
  signed_by our_pubkey unvault_emergency txs.unvault_emergency_tx

unfoldable pub only_stakeholders : List PubKey → RevocationTxs → Result Refusal (Unit {0})
unfolding known_keys
only_stakeholders stk_keys txs = do
  known_keys stk_keys cancel txs.cancel_tx.partial_sigs
  known_keys stk_keys emergency txs.emergency_tx.partial_sigs
  known_keys stk_keys unvault_emergency txs.unvault_emergency_tx.partial_sigs

module _ (secp : Secp) where
  abbrev pub valid_revocation : TransactionType → Psbt → Result Refusal (Unit {0})
  valid_revocation t tx =
      map_err (from_sig_error (invalid_signature t))
        (check_revocation_signatures secp tx tx.partial_sigs)

  unfoldable pub valid_signatures : RevocationTxs → Result Refusal (Unit {0})
  valid_signatures txs = do
    valid_revocation cancel txs.cancel_tx
    valid_revocation emergency txs.emergency_tx
    valid_revocation unvault_emergency txs.unvault_emergency_tx

  module _ (daemon : Daemon) where
    -- The keys and the signatures, at a derivation index.
    unfoldable pub revocation_sigs_checks : ℕ → RevocationTxs → Result Refusal (Unit {0})
    unfolding own_signatures only_stakeholders valid_signatures
    revocation_sigs_checks index txs = do
      our_pubkey ← ok_or aborted (our_stk_xpub_at secp daemon index)
      own_signatures our_pubkey txs
      only_stakeholders (stakeholders_xpubs_at secp daemon index) txs
      valid_signatures txs

    -- The message about a key names the Cancel transaction.
    unfoldable pub unvault_sigs_checks : ℕ → Psbt → Result Refusal (Unit {0})
    unfolding known_keys
    unvault_sigs_checks index unvault_tx = do
      our_key ← ok_or aborted (our_stk_xpub_at secp daemon index)
      signed_by our_key unvault unvault_tx
      known_keys (stakeholders_xpubs_at secp daemon index) cancel unvault_tx.partial_sigs
      map_err (from_sig_error (invalid_signature unvault))
          (check_unvault_signatures secp unvault_tx)

    module _ (role : UserRole) (outpoint : OutPoint) where
      -- What `revocationtxs` checks before it stores anything: the vault and the rows to sign.
      unfoldable pub revocation_checks :
          RevocationTxs → Db → Result Refusal (DbVault × RevocationRows)
      unfolding stakeholder_only vault_at matching_rows revocation_sigs_checks
      revocation_checks txs db = do
        stakeholder_only role
        db_vault ← vault_at outpoint funded funded db
        rows ← matching_rows db_vault.id txs db
        has_input txs.cancel_tx
        has_input txs.emergency_tx
        has_input txs.unvault_emergency_tx
        revocation_sigs_checks db_vault.derivation_index txs
        ok (db_vault, rows)

      -- The same of `unvaulttx`. The message about the status names 'funded'.
      unfoldable pub unvault_checks : Psbt → Db → Result Refusal (DbVault × DbTransaction)
      unfolding stakeholder_only vault_at unvault_sigs_checks
      unvault_checks unvault_tx db = do
        stakeholder_only role
        db_vault ← vault_at outpoint secured funded db
        row ← map_err from_fault (db_unvault_transaction db db_vault.id)
        same_tx unvault unvault_tx row
        has_input unvault_tx
        unvault_sigs_checks db_vault.derivation_index unvault_tx
        ok (db_vault, row)
