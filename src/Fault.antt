-- ===== src/Fault.antt =====
-- How a call of the daemon ends when it does not return: with one of its errors (src/daemon/
-- database/mod.rs, src/daemon/bitcoind/mod.rs) or with a panic, which stops the process. An error
-- made of a formatted message is named by what the message says; `From` between the error types
-- keeps the origin.
use revaultd.Prelude.{ℕ, Bool, true, false, Result, ◌==◌}

pub data DatabaseError : Type 0 where
  -- an SQL constraint refused the statement
  constraint_failed : DatabaseError
  no_tip_row no_wallet_row no_version_row : DatabaseError
  confirming_unknown_deposit transaction_not_found no_unvault_tx no_unvault_dbtx : DatabaseError
  unexpected_version invalid_network descriptor_mismatch no_time : DatabaseError

pub data Custom : Type 0 where
  unknown_derivation_index unknown_vault_confirmed unknown_unvault_confirmed : Custom
  no_vault_for_spent_unvault unknown_unvault_spent no_vault_for_unvault : Custom
  deriving_next_index api_break invalid_block_hash wrong_network : Custom
  creating_wallet loading_wallet unloading_wallet import_refused many_wallets no_time no_receiver :
      Custom

pub data Fault : Type 0 where
  database : DatabaseError → Fault
  -- `BitcoindError::Custom`
  custom : Custom → Fault
  -- `BitcoindError::Server` with the code of an RPC error, negated
  rpc_error : ℕ → Fault
  -- `BitcoindError::Server`, any other
  server : Fault
  batch_missing_response : Fault
  -- an error of the library revault_tx
  revault_tx : Fault
  -- the fuel of a loop of the model ran out
  still_running : Fault
  -- `expect`, `unwrap`, `unreachable!` and `assert!`
  panic : Fault

abbrev pub Res {ℓ} : Type ℓ → Type ℓ
Res = Result Fault

-- `BitcoindError::is_warming_up`
unfoldable pub is_warming_up : Fault → Bool
is_warming_up (rpc_error code) = code == 28
is_warming_up _ = false

-- What no `match` on a result catches: a panic, and the end of the fuel.
abbrev pub is_fatal : Fault → Bool
is_fatal panic = true
is_fatal still_running = true
is_fatal _ = false
