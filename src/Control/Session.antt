-- ===== src/Control/Session.antt =====
-- What a call of the RPC or of the signature fetcher works on: the database and the messages that
-- were sent (src/daemon/control.rs), and how a call is refused (the macros of
-- src/daemon/jsonrpc/api.rs).
pub mod Steps
use revaultd.Prelude.{ℕ, Bool, true, false, Option, none, some, List, [], ◌∷◌, Result, ok, err, map}
use revaultd.Prelude.Stateful.{fail, lift, return}
use revaultd.Fault.{Fault, panic, Res}
use revaultd.Status.{VaultStatus}
use revaultd.Sigs.{PubKey}
use revaultd.Database.Schema.{Txid, OutPoint, Psbt, SpendPsbt, TransactionType, Db}
use revaultd.Control.Signatures.{SigError, panicked, Secp}

pub data CommunicationError : Type 0 where
  net signature_storage spend_tx_storage cosig_already_signed cosig_insane_psbt : CommunicationError

-- The errors of `jsonrpc_core` that the calls make, named by their messages, and a panic.
pub data Refusal : Type 0 where
  stakeholder_command manager_command not_a_vault_status : Refusal
  unknown_outpoint unknown_or_unconfirmed : OutPoint → Refusal
  -- the current status and the one that the message asks for
  invalid_status : VaultStatus → VaultStatus → Refusal
  invalid_tx no_own_signature : TransactionType → Refusal
  unknown_key : TransactionType → PubKey → Refusal
  invalid_signature : TransactionType → SigError → Refusal
  communication : CommunicationError → Refusal
  unknown_unvault : Txid → Refusal
  unknown_spend already_spent_vault spend_too_large invalid_cosigners : Refusal
  invalid_spend_signature : SigError → Refusal
  feerate_too_low feerate_too_high : Refusal
  building_spend : Fault → Refusal
  thread_communication : Refusal
  internal : Fault → Refusal
  aborted : Refusal

-- What no `match` on a result catches.
abbrev pub is_fatal : Refusal → Bool
is_fatal aborted = true
is_fatal _ = false

-- `internal_error!`; a panic of the statement is not caught.
abbrev pub from_fault : Fault → Refusal
from_fault panic = aborted
from_fault e = internal e

abbrev pub from_sig_error : (SigError → Refusal) → SigError → Refusal
from_sig_error f panicked = aborted
from_sig_error f e = f e

-- What leaves the daemon. A signature is the one that `from_der` reads.
pub data Message : Type 0 where
  connecting : ℕ → Message
  sig : Txid → PubKey → ℕ → Message
  get_sigs : Txid → Message
  sign_request : ℕ → SpendPsbt → Message
  set_spend_tx : List OutPoint → SpendPsbt → Message
  wallet_transaction : Txid → Message
  broadcast : List Psbt → Message

-- The messages are kept with the last one first.
pub record Session : Type 0 where
  pub db : Db
  pub log : List Message

-- The servers and the bitcoind thread: what they answer to the first of these messages, which may
-- depend on all that came before it. No answer is a failure of the transport or of the channel.
pub record Net : Type 0 where
  pub connect : List Message → Bool
  pub sig_ack : List Message → Option Bool
  pub signatures : List Message → Option (List (ℕ × ℕ))
  pub sign_result : List Message → Option (Option SpendPsbt)
  pub set_spend_ack : List Message → Option Bool
  pub wallet_tx : List Message → Option (Option ℕ)
  pub broadcasted : List Message → Option (Res (Unit {0}))

-- The part of `RevaultD` that the calls read. An xpub and a server are numbers.
pub record Daemon : Type 0 where
  pub our_stk_xpub : Option ℕ
  pub our_man_xpub : Option ℕ
  pub deposit_xpubs : List ℕ
  -- the keys of the Unvault descriptor, with whether each is a plain key
  pub unvault_keys : List (ℕ × Bool)
  pub unvault_managers_threshold : Option ℕ
  pub coordinator_host : ℕ
  pub cosigs : Option (List ℕ)
  pub watchtowers : Option (List ℕ)
  pub current_unused_index : ℕ

abbrev pub Command {ℓ} : Type ℓ → Type ℓ
Command A = Session → Result Refusal A × Session

abbrev pub get_db : Command Db
get_db s = (ok s.db, s)

abbrev pub stored : Res Db → Session → Result Refusal (Unit {0}) × Session
stored (ok db) s = (ok tt, record s { db = db })
stored (err e) s = (err (from_fault e), s)

-- A statement on the database.
abbrev pub exec : (Db → Res Db) → Command (Unit {0})
exec f s = stored (f s.db) s

abbrev pub send : Message → Command (Unit {0})
send m s = (ok tt, record s { log = m ∷ s.log })

abbrev pub received {ℓ} : {A : Type ℓ} → Option A → Session → Result Refusal A × Session
received none s = (err (communication net), s)
received (some a) s = (ok a, s)

-- A message and its answer.
abbrev pub ask {ℓ} : {A : Type ℓ} → (List Message → Option A) → Message → Command A
ask answer m s = received (answer (m ∷ s.log)) (record s { log = m ∷ s.log })

-- `ok_or_else(…)?` and `expect(…)`
abbrev pub present {ℓ} : {A : Type ℓ} → Refusal → Option A → Command A
present e none = fail e
present e (some a) = return a

-- `if !test { return Err(e) }`
abbrev pub require : Refusal → Bool → Command (Unit {0})
require e true = return tt
require e false = fail e
