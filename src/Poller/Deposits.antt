-- ===== src/Poller/Deposits.antt =====
-- src/daemon/bitcoind/poller.rs: deposits appear, confirm and are spent.
use revaultd.Prelude.{
  ℕ, ◌+◌, ◌%◌, ◌^◌, Bool, true, false, leb, Option, none, some, ok, err, ok_or, if◌then◌else◌,
}
use revaultd.Fault.{
  Res, custom, panic, unknown_derivation_index, unknown_vault_confirmed, deriving_next_index,
}
use revaultd.Database.Schema.{Txid, OutPoint, Psbt, DbVault}
use revaultd.Database.Interface.{db_vault_by_deposit}
use revaultd.Database.Deposits.{db_insert_new_unconfirmed_vault, db_confirm_deposit}
use revaultd.Database.Marks.{
  db_update_deposit_index, db_unvault_deposit, db_mark_emergencying_vault,
}
use revaultd.Cache.{UtxoInfo, insert, set_confirmed}
use revaultd.Bitcoind.Run.{
  Run, ◌>>=◌, ◌>>◌, return, fail, lift, get_db, exec, try_exec, on_unvaults, on_deposits,
  try_deposits, request,
}
use revaultd.Bitcoind.Client.{Rpc, is_current, get_wallet_transaction}
use revaultd.Poller.Wallet.{Wallet, emer_txid}
use revaultd.Poller.Unvaults.{take}
use revaultd.Poller.Setup.{Setup, presigned_transactions, unvault_txin_from_deposit}

abbrev pub gap_limit : ℕ
gap_limit = 100

-- The value of a `match` that logs an error and returns; a panic is no such error.
abbrev pub or_stop {ℓ} : {A : Type ℓ} → Res A → (A → Run (Unit {0})) → Run (Unit {0})
or_stop (ok a) f = f a
or_stop (err panic) f = fail panic
or_stop (err e) f = return tt

module _ (setup : Setup) (wallet : Wallet) (rpc : Rpc) where
  abbrev pub set_index : ℕ → Run (Unit {0})
  set_index n w = (ok tt, record w { current_unused_index = n })

  abbrev pub get_index : Run ℕ
  get_index w = (ok w.current_unused_index, w)

  abbrev pub last_index : ℕ → ℕ
  last_index n = (n + gap_limit) % 2 ^ 32

  -- `if derivation_index >= current_first_index`
  unfoldable pub next_addresses : ℕ → Run (Unit {0})
  unfolding db_update_deposit_index
  next_addresses current_first_index = do
    new_index ← lift (ok_or (custom deriving_next_index) (setup.increment current_first_index))
    exec (db_update_deposit_index new_index)
    set_index new_index
    deposit_desc ←
        request (λ n. setup.addr_descriptor n (setup.deposit_address (last_index new_index)))
    request (λ n. setup.import_fresh_deposit n deposit_desc)
    unvault_desc ←
        request (λ n. setup.addr_descriptor n (setup.unvault_address (last_index new_index)))
    request (λ n. setup.import_fresh_unvault n unvault_desc)

  unfoldable pub mind_gap : ℕ → ℕ → Run (Unit {0})
  unfolding next_addresses
  mind_gap derivation_index current_first_index =
      if leb current_first_index derivation_index
      then next_addresses current_first_index
      else return tt

  unfoldable pub store_deposit : OutPoint → UtxoInfo → Run (Unit {0})
  unfolding get_wallet_transaction db_insert_new_unconfirmed_vault insert mind_gap
  store_deposit outpoint utxo = do
    derivation_index ←
        lift
          (ok_or (custom unknown_derivation_index) (setup.derivation_index_map utxo.script_pubkey))
    tx ← get_wallet_transaction rpc outpoint.txid
    wallet_id ← lift (ok_or panic setup.wallet_id)
    try_exec
        (db_insert_new_unconfirmed_vault wallet_id outpoint utxo.value derivation_index tx.received)
    on_deposits (insert outpoint utxo)
    current_first_index ← get_index
    mind_gap derivation_index current_first_index

  unfoldable pub handle_new_deposit : OutPoint × UtxoInfo → Run (Unit {0})
  unfolding store_deposit
  handle_new_deposit (outpoint, utxo) =
      if leb utxo.value setup.dust_limit then return tt else store_deposit outpoint utxo

  unfoldable pub confirm_with :
      OutPoint → ℕ → Psbt × Psbt × Option Psbt × Option Psbt → Run (Unit {0})
  unfolding db_confirm_deposit set_confirmed
  confirm_with outpoint height (unvault_tx, cancel_tx, emer_tx, unemer_tx) = do
    try_exec (db_confirm_deposit outpoint height unvault_tx cancel_tx emer_tx unemer_tx)
    try_deposits (custom unknown_vault_confirmed) (set_confirmed true outpoint)

  -- `if let (_, Some(height), _) = …`
  abbrev pub confirm_at : OutPoint → UtxoInfo → Option ℕ → Run (Unit {0})
  confirm_at outpoint utxo none = return tt
  confirm_at outpoint utxo (some height) =
      or_stop (presigned_transactions setup wallet outpoint utxo) (confirm_with outpoint height)

  unfoldable pub handle_confirmed_deposit : OutPoint × UtxoInfo → Run (Unit {0})
  unfolding get_wallet_transaction presigned_transactions confirm_with
  handle_confirmed_deposit (outpoint, utxo) = do
    tx ← get_wallet_transaction rpc outpoint.txid
    confirm_at outpoint utxo tx.blockheight

  -- The deposit is known to be there, so the removal is not refused.
  abbrev pub forget : OutPoint → Run (Unit {0})
  forget deposit_outpoint = try_deposits panic (take deposit_outpoint)

  abbrev pub unless_current : OutPoint → Bool → Run (Unit {0})
  unless_current deposit_outpoint true = return tt
  unless_current deposit_outpoint false = forget deposit_outpoint

  abbrev pub mark_emergency : OutPoint → DbVault → Bool → Run (Unit {0})
  mark_emergency deposit_outpoint db_vault false = return tt
  mark_emergency deposit_outpoint db_vault true = do
    exec (db_mark_emergencying_vault db_vault.id)
    forget deposit_outpoint

  abbrev pub if_emergency : OutPoint → DbVault → Option Txid → Run (Unit {0})
  if_emergency deposit_outpoint db_vault none = return tt
  if_emergency deposit_outpoint db_vault (some txid) =
      is_current rpc txid >>= mark_emergency deposit_outpoint db_vault

  -- It was not spent by the Unvault transaction. After an Emergency, the code goes on.
  unfoldable pub otherwise_spent : OutPoint → Run (Unit {0})
  unfolding db_vault_by_deposit emer_txid is_current take db_mark_emergencying_vault
  otherwise_spent deposit_outpoint = do
    db ← get_db
    db_vault ← lift (ok_or panic (db_vault_by_deposit db deposit_outpoint))
    emer ← lift (emer_txid wallet db_vault db)
    if_emergency deposit_outpoint db_vault emer
    current ← is_current rpc deposit_outpoint.txid
    unless_current deposit_outpoint current

  -- The answer is whether the Unvault transaction is current.
  unfoldable pub spent_by_unvault : OutPoint → OutPoint × UtxoInfo → Bool → Run (Unit {0})
  unfolding db_unvault_deposit insert take otherwise_spent
  spent_by_unvault deposit_outpoint (unvault_outpoint, txo) true = do
    exec (db_unvault_deposit unvault_outpoint.txid)
    on_unvaults (insert unvault_outpoint (record txo { is_confirmed = false }))
    forget deposit_outpoint
  spent_by_unvault deposit_outpoint unvault_txin false = otherwise_spent deposit_outpoint

  abbrev pub spent_with : OutPoint → OutPoint × UtxoInfo → Run (Unit {0})
  spent_with deposit_outpoint unvault_txin =
      is_current rpc unvault_txin.0.txid >>= spent_by_unvault deposit_outpoint unvault_txin

  unfoldable pub handle_spent_deposit : OutPoint × UtxoInfo → Run (Unit {0})
  unfolding unvault_txin_from_deposit is_current spent_by_unvault
  handle_spent_deposit (deposit_outpoint, utxo) = do
    db ← get_db
    or_stop (unvault_txin_from_deposit setup wallet db deposit_outpoint utxo.value)
        (spent_with deposit_outpoint)
