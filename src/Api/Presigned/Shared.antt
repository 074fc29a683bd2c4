-- ===== src/Api/Presigned/Shared.antt =====
-- src/daemon/jsonrpc/api.rs, src/daemon/control.rs: the signatures that `revocationtxs` and `unvaulttx`
-- let through satisfy what the exchange with the coordinator expects of them.
use revaultd.Prelude.{
  ℕ, ◌≡◌, refl, arith, Bool, true, false, not, ◌&&◌, ◌||◌, ◌==◌, [], ◌∷◌, Result, ok, All,
}
use revaultd.Prelude.Stateful.{◌>>◌, after}
use revaultd.Sigs.{PubKey, SigMap, contains_key, get}
use revaultd.Database.Schema.{OutPoint, DbVault, Txid}
use revaultd.Control.Signatures.{Secp, SigHashType, all, all_plus_anyone_can_pay}
use revaultd.Control.Signatures.Presigned.{IsValid}
use revaultd.Control.Session.{aborted, Refusal, Session, Net, Daemon, require}
use revaultd.Control.Coordinator.{connect, is_empty, send_sig_msg, share_rev_signatures}
use revaultd.Control.Coordinator.Sharing.{ends_well, ends_well-after, send_sig_msg-ends_well}
use revaultd.Api.Role.{UserRole}
use revaultd.Api.Presigned.Checks.{RevocationTxs, RevocationRows, revocation_checks}
use revaultd.Api.Presigned.Commands.{with_own}
use revaultd.Api.Presigned.Vetted.{revocation_checks-IsVetted}

not-empty : (sigs : SigMap) (k : PubKey) → contains_key sigs k ≡ true → not (is_empty sigs) ≡ true
unfolding contains_key get
not-empty [] k h = cc
not-empty (entry ∷ sigs) k h = refl

allowed :
    (secp : Secp)
    → (secp.as_u8 all_plus_anyone_can_pay == secp.as_u8 all_plus_anyone_can_pay
        || secp.as_u8 all_plus_anyone_can_pay == secp.as_u8 all)
      ≡ true
allowed secp = ground arith

module _ (secp : Secp) (servers : Net) where
  send-ends_well :
      (id : Txid) (sighash : ℕ) (hashtype : SigHashType) (sigs : SigMap)
      (k : Unit {0} → Session → Result Refusal (Unit {0}) × Session) (s : Session)
      → (secp.as_u8 hashtype == secp.as_u8 all_plus_anyone_can_pay
          || secp.as_u8 hashtype == secp.as_u8 all)
        ≡ true
      → All (IsValid secp sighash hashtype) sigs
      → ((s' : Session) → ends_well (k tt s').0 ≡ true)
      → ends_well (after (send_sig_msg secp servers id sigs s) k).0 ≡ true
  send-ends_well id sighash hashtype sigs k s shared valid h =
      ends_well-after (send_sig_msg secp servers id sigs s) k
        (send_sig_msg-ends_well secp servers id sighash hashtype sigs s shared valid)
        (h (send_sig_msg secp servers id sigs s).1)

  connect-ends_well :
      (host : ℕ) (k : Unit {0} → Session → Result Refusal (Unit {0}) × Session) (s : Session)
      → ((s' : Session) → ends_well (k tt s').0 ≡ true)
      → ends_well (after (connect secp servers host s) k).0 ≡ true
  connect-ends_well host k s h =
      ends_well-after (connect secp servers host s) k (ground arith)
        (h (connect secp servers host s).1)

require-ends_well :
    (t : Bool) (k : Unit {0} → Session → Result Refusal (Unit {0}) × Session) (s : Session)
    → t ≡ true
    → ends_well (k tt s).0 ≡ true
    → ends_well (after (require aborted t s) k).0 ≡ true
require-ends_well true k s e h = h
require-ends_well false k s e h = cc

module _ (secp : Secp) (servers : Net) (daemon : Daemon) (role : UserRole)
    (outpoint : OutPoint) where
  -- If the checks of `revocationtxs` are passed, sharing the signatures with the coordinator does not
  -- panic, whatever the servers answer: it returns, or fails in the exchange with the coordinator.
  pub share_rev_signatures-ends_well :
      (txs : RevocationTxs) (vault : DbVault) (rows : RevocationRows) (s s1 : Session)
      → revocation_checks secp daemon role outpoint txs s.db ≡ ok (vault, rows)
      → ends_well
          (share_rev_signatures secp servers daemon
            (with_own txs.cancel_tx)
            (with_own txs.emergency_tx)
            (with_own txs.unvault_emergency_tx)
            s1).0
        ≡ true
  unfolding share_rev_signatures
  share_rev_signatures-ends_well txs vault rows s s1 h =
      let (
        r,
        v,
        (
          own,
          e,
          (a1, a2, a3, a4, (hash1, p1, v1)),
          (b1, b2, b3, b4, (hash2, p2, v2)),
          (c1, c2, c3, c4, (hash3, p3, v3)),
        ),
      ) =
        revocation_checks-IsVetted secp daemon role outpoint s.db txs vault rows h in
      let send1 = send_sig_msg secp servers txs.cancel_tx.txid txs.cancel_tx.partial_sigs in
      let send2 = send_sig_msg secp servers txs.emergency_tx.txid txs.emergency_tx.partial_sigs in
      let send3 =
        send_sig_msg secp servers txs.unvault_emergency_tx.txid
          txs.unvault_emergency_tx.partial_sigs in
      require-ends_well
        (not (is_empty txs.cancel_tx.partial_sigs)
          && not (is_empty txs.emergency_tx.partial_sigs)
          && not (is_empty txs.unvault_emergency_tx.partial_sigs))
        (λ _. connect secp servers daemon.coordinator_host >> (send1 >> (send2 >> send3))) s1
        (ground (
          arith,
          not-empty txs.cancel_tx.partial_sigs own a3,
          not-empty txs.emergency_tx.partial_sigs own b3,
          not-empty txs.unvault_emergency_tx.partial_sigs own c3,
        ))
        (connect-ends_well secp servers daemon.coordinator_host (λ _. send1 >> (send2 >> send3)) s1
          (λ s2.
            send-ends_well secp servers txs.cancel_tx.txid hash1 all_plus_anyone_can_pay
              txs.cancel_tx.partial_sigs (λ _. send2 >> send3) s2 (allowed secp) v1
              (λ s3.
                send-ends_well secp servers txs.emergency_tx.txid hash2 all_plus_anyone_can_pay
                  txs.emergency_tx.partial_sigs (λ _. send3) s3 (allowed secp) v2
                  (λ s4.
                    send_sig_msg-ends_well secp servers txs.unvault_emergency_tx.txid hash3
                      all_plus_anyone_can_pay txs.unvault_emergency_tx.partial_sigs s4
                      (allowed secp) v3))))
