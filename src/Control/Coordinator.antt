-- ===== src/Control/Coordinator.antt =====
-- src/daemon/control.rs: what is said to the coordinator and to the cosigning servers, and the
-- requests to the bitcoind thread.
pub mod Sharing
pub mod Cosigners
use revaultd.Prelude.{
  ℕ, suc, Bool, not, ◌&&◌, ◌||◌, ◌==◌, leb, Option, none, some, List, [], ◌∷◌, map, Result, ok, err,
  if◌then◌else◌,
}
use revaultd.Prelude.Stateful.{◌>>=◌, ◌>>◌, return, fail, each}
use revaultd.Fault.{Fault, Res}
use revaultd.Sigs.{PubKey, Bytes, SigMap}
use revaultd.Database.Schema.{Txid, OutPoint, Psbt, SpendPsbt}
use revaultd.Control.Signatures.{all, all_plus_anyone_can_pay, Secp, split_last}
use revaultd.Control.Session.{
  CommunicationError, signature_storage, spend_tx_storage, cosig_already_signed, cosig_insane_psbt,
  net, Refusal, communication, aborted, thread_communication, from_fault, connecting, sig, get_sigs,
  sign_request, set_spend_tx, wallet_transaction, broadcast, Message, Session, Net, Daemon, Command,
  send, ask, present, require,
}

-- What the functions take from revault_tx and revault_net.
pub record Txs : Type 0 where
  -- `finalize`, which makes a transaction final or fails
  pub finalize : Psbt → Option Psbt
  pub finalize_spend : SpendPsbt → Option SpendPsbt
  pub add_signature : Psbt → PubKey → ℕ → Option Psbt
  pub add_spend_signature : SpendPsbt → ℕ → PubKey → ℕ → Option SpendPsbt
  pub max_satisfaction_weight : ℕ
  -- the length of the message about a Spend, with a witness of this many zeros at each input
  pub message_len : SpendPsbt → Option ℕ → ℕ
  pub noise_plaintext_max_size : ℕ

-- `psbtin.partial_sigs.clear()` at each input
abbrev pub stripped : SpendPsbt → SpendPsbt
stripped tx = record tx { input_sigs = map (λ _. []) tx.input_sigs }

-- What the bitcoind thread answers to a broadcast; a failed one is `RpcControlError::Bitcoind`.
abbrev pub broadcast_result : Option (Res (Unit {0})) → Command (Unit {0})
broadcast_result none = fail thread_communication
broadcast_result (some (ok u)) = return tt
broadcast_result (some (err e)) = fail (from_fault e)

abbrev pub is_empty : SigMap → Bool
is_empty [] = Bool.true
is_empty (_ ∷ _) = Bool.false

module _ (secp : Secp) (servers : Net) where
  abbrev pub connect : ℕ → Command (Unit {0})
  connect host =
      ask (λ log. some (servers.connect log)) (connecting host)
      >>= (λ connected. require (communication net) connected)

  -- The loop body of `send_sig_msg`.
  unfoldable pub send_sig : Txid → PubKey × Bytes → Command (Unit {0})
  unfolding split_last
  send_sig id (pubkey, bytes) = do
    parts ← present aborted (split_last bytes)
    require aborted (parts.0 == secp.as_u8 all_plus_anyone_can_pay || parts.0 == secp.as_u8 all)
    signature ← present aborted (secp.from_der parts.1)
    ack ← ask servers.sig_ack (sig id pubkey signature)
    require (communication signature_storage) ack

  unfoldable pub send_sig_msg : Txid → SigMap → Command (Unit {0})
  unfolding send_sig each
  send_sig_msg id sigs = each sigs (send_sig id)

  module _ (daemon : Daemon) where
    unfoldable pub share_rev_signatures :
        Psbt × SigMap → Psbt × SigMap → Psbt × SigMap → Command (Unit {0})
    unfolding send_sig_msg
    share_rev_signatures cancel emer unvault_emer = do
      require aborted
          (not (is_empty cancel.1) && not (is_empty emer.1) && not (is_empty unvault_emer.1))
      connect daemon.coordinator_host
      send_sig_msg cancel.0.txid cancel.1
      send_sig_msg emer.0.txid emer.1
      send_sig_msg unvault_emer.0.txid unvault_emer.1

    unfoldable pub share_unvault_signatures : Psbt → Command (Unit {0})
    unfolding send_sig_msg
    share_unvault_signatures unvault_tx = do
      connect daemon.coordinator_host
      send_sig_msg unvault_tx.txid unvault_tx.partial_sigs

    unfoldable pub announce_spend_transaction : SpendPsbt → List OutPoint → Command (Unit {0})
    announce_spend_transaction spend_tx deposit_outpoints = do
      connect daemon.coordinator_host
      ack ← ask servers.set_spend_ack (set_spend_tx deposit_outpoints spend_tx)
      require (communication spend_tx_storage) ack

    unfoldable pub get_presigs : Txid → Command (List (PubKey × ℕ))
    get_presigs txid = do connect daemon.coordinator_host; ask servers.signatures (get_sigs txid)

  module _ (txs : Txs) where
    -- `for (key, sig) in psbtin.partial_sigs`
    unfoldable pub add_input_signatures : ℕ → SigMap → SpendPsbt → Command SpendPsbt
    unfolding split_last
    add_input_signatures i [] spend_tx = return spend_tx
    add_input_signatures i ((key, bytes) ∷ sigs) spend_tx = do
      parts ← present (communication cosig_insane_psbt) (split_last bytes)
      signature ← present (communication cosig_insane_psbt) (secp.from_der parts.1)
      spend_tx' ←
          present (communication cosig_insane_psbt)
            (txs.add_spend_signature spend_tx i key signature)
      add_input_signatures i sigs spend_tx'

    -- `for (i, psbtin) in signed_tx.into_psbt().inputs.into_iter().enumerate()`
    unfoldable pub add_signatures : ℕ → List SigMap → SpendPsbt → Command SpendPsbt
    unfolding add_input_signatures
    add_signatures i [] spend_tx = return spend_tx
    add_signatures i (sigs ∷ inputs) spend_tx =
        add_input_signatures i sigs spend_tx >>= add_signatures (suc i) inputs

    -- `for (host, noise_key) in cosigs`
    unfoldable pub poll_cosigs : SpendPsbt → List ℕ → SpendPsbt → Command SpendPsbt
    unfolding add_signatures
    poll_cosigs stripped_tx [] spend_tx = return spend_tx
    poll_cosigs stripped_tx (host ∷ hosts) spend_tx = do
      connect host
      sign_res ← ask servers.sign_result (sign_request host stripped_tx)
      signed_tx ← present (communication cosig_already_signed) sign_res
      spend_tx' ← add_signatures 0 signed_tx.input_sigs spend_tx
      poll_cosigs stripped_tx hosts spend_tx'

    unfoldable pub fetch_cosigs_signatures : SpendPsbt → List ℕ → Command SpendPsbt
    unfolding poll_cosigs
    fetch_cosigs_signatures spend_tx cosigs = poll_cosigs (stripped spend_tx) cosigs spend_tx

  unfoldable pub bitcoind_wallet_tx : Txid → Command (Option ℕ)
  bitcoind_wallet_tx txid =
      ask (λ log. some (servers.wallet_tx log)) (wallet_transaction txid)
      >>= present thread_communication

  unfoldable pub bitcoind_broadcast : List Psbt → Command (Unit {0})
  bitcoind_broadcast [] = return tt
  bitcoind_broadcast (tx ∷ txs) = do
    result ← ask (λ log. some (servers.broadcasted log)) (broadcast (tx ∷ txs))
    broadcast_result result

  -- `KKTransport::connect(…).is_ok()`
  abbrev pub is_reachable : ℕ → Session → Bool × Session
  is_reachable host s =
      (servers.connect (connecting host ∷ s.log), record s { log = connecting host ∷ s.log })

-- The first test is whether the Spend is final.
unfoldable pub check_spend_transaction_size : Txs → SpendPsbt → Bool
check_spend_transaction_size txs spend_tx =
    leb
      (txs.message_len spend_tx
        (if spend_tx.is_finalized then none else some txs.max_satisfaction_weight))
      txs.noise_plaintext_max_size
