-- ===== src/Sigfetcher.antt =====
-- src/daemon/sigfetcher.rs: the coordinator's signatures are added to the presigned transactions.
pub mod Fetched
pub mod Rounds
use revaultd.Prelude.{
  ℕ, Bool, true, false, Option, none, some, List, [], ◌∷◌, ◌++◌, ok, err, if◌then◌else◌,
}
use revaultd.Prelude.Stateful.{◌>>=◌, ◌>>◌, return, rescued}
use revaultd.Sigs.{PubKey, contains_key}
use revaultd.Database.Schema.{Psbt, TransactionType, DbTransaction, Db}
use revaultd.Database.Interface.{db_vault, db_transactions_sig_missing}
use revaultd.Database.Presigned.{db_update_presigned_tx}
use revaultd.Control.Signatures.{Secp}
use revaultd.Control.Session.{
  aborted, is_fatal, Net, Daemon, Session, Command, get_db, exec, present,
}
use revaultd.Control.Keys.{contains, stakeholders_xpubs_at}
use revaultd.Control.Coordinator.{Txs, get_presigs}

module _ (secp : Secp) (is_finalizable : Psbt → Bool) (servers : Net) (daemon : Daemon)
    (txs : Txs) where
  -- The transaction after a signature: unchanged for a key that is not a stakeholder's, that has
  -- signed already, or if the library refuses the signature.
  unfoldable pub with_fetched : List PubKey → Psbt → PubKey → ℕ → Option Psbt
  unfolding contains contains_key
  with_fetched stk_keys tx key sig =
      if contains stk_keys key
      then if contains_key tx.partial_sigs key then none else txs.add_signature tx key sig
      else none

  -- The update of the database, of which a failure is only logged.
  abbrev pub update_or_log : ℕ → ℕ → Psbt → Command (Unit {0})
  update_or_log vault_id tx_db_id tx s =
      rescued is_fatal tt
        (exec (db_update_presigned_tx is_finalizable vault_id tx_db_id tx.partial_sigs) s)

  abbrev pub updated : ℕ → ℕ → Option Psbt → Command (Unit {0})
  updated vault_id tx_db_id none = return tt
  updated vault_id tx_db_id (some tx) = update_or_log vault_id tx_db_id tx

  abbrev pub or_same : Psbt → Option Psbt → Psbt
  or_same tx none = tx
  or_same tx (some tx') = tx'

  -- `for (key, sig) in signatures`
  unfoldable pub add_fetched : ℕ → ℕ → List PubKey → List (PubKey × ℕ) → Psbt → Command (Unit {0})
  unfolding with_fetched
  add_fetched vault_id tx_db_id stk_keys [] tx = return tt
  add_fetched vault_id tx_db_id stk_keys ((key, sig) ∷ signatures) tx =
      updated vault_id tx_db_id (with_fetched stk_keys tx key sig)
      >> add_fetched vault_id tx_db_id stk_keys signatures
          (or_same tx (with_fetched stk_keys tx key sig))

  unfoldable pub get_sigs : ℕ → ℕ → Psbt → Command (Unit {0})
  unfolding add_fetched get_presigs
  get_sigs tx_db_id vault_id tx = do
    db ← get_db
    vault ← present aborted (db_vault db vault_id)
    signatures ← get_presigs secp servers daemon tx.txid
    add_fetched vault_id tx_db_id (stakeholders_xpubs_at secp daemon vault.derivation_index)
        signatures tx

  -- `while let Some(tx) = txs.pop()`: from the last one, and all types are handled alike. The list
  -- is given from its end.
  unfoldable pub fetch_from_last : List DbTransaction → Command (Unit {0})
  unfolding get_sigs
  fetch_from_last [] = return tt
  fetch_from_last (tx ∷ rest) = get_sigs tx.id tx.vault_id tx.psbt >> fetch_from_last rest

  unfoldable pub reversed : List DbTransaction → List DbTransaction → List DbTransaction
  reversed done [] = done
  reversed done (tx ∷ rest) = reversed (tx ∷ done) rest

  unfoldable pub fetch_all_signatures : List DbTransaction → Command (Unit {0})
  unfolding fetch_from_last reversed
  fetch_all_signatures rows = fetch_from_last (reversed [] rows)

  -- One poll of `signature_fetcher_loop`: a failure is only logged.
  unfoldable pub poll_signatures : Command (Unit {0})
  unfolding fetch_all_signatures db_transactions_sig_missing
  poll_signatures s =
      rescued is_fatal tt (fetch_all_signatures (db_transactions_sig_missing s.db) s)
