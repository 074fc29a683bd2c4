-- ===== src/Api/Presigned/Effects.antt =====
-- src/daemon/jsonrpc/api.rs: what `revocationtxs` stores and sends, and that it does nothing unless
-- its checks are passed.
use revaultd.Prelude.{
  ◌≡◌, ◌⊎◌, inl, inr, sym, ap, subst, Bool, not, ◌&&◌, List, ◌∷◌, Result, ok, Result-cases,
}
use revaultd.Prelude.Stateful.{◌>>◌, return, after, after-eq-ok}
use revaultd.Database.Schema.{OutPoint, Psbt, DbVault, Db}
use revaultd.Database.Presigned.{db_update_presigned_tx}
use revaultd.Database.Marks.{db_mark_securing_vault}
use revaultd.Control.Signatures.{Secp}
use revaultd.Control.Session.{Refusal, aborted, connecting, Message, Session, Net, Daemon, exec}
use revaultd.Control.Session.Steps.{exec-after, require-after, lift-after}
use revaultd.Control.Coordinator.{connect, is_empty, send_sig_msg, share_rev_signatures}
use revaultd.Control.Coordinator.Sharing.{IsSent, connect-after, send_sig_msg-after}
use revaultd.Api.Role.{UserRole}
use revaultd.Api.Presigned.Checks.{RevocationTxs, RevocationRows, revocation_checks}
use revaultd.Api.Presigned.Commands.{with_own, store_revocations, store_and_share, revocationtxs}
use revaultd.Api.Presigned.Vetted.{IsVetted, revocation_checks-IsVetted}

module _ (secp : Secp) (is_finalizable : Psbt → Bool) (servers : Net) (daemon : Daemon) where
  -- The coordinator got the signatures of the three transactions over one connection.
  abbrev AreSent : RevocationTxs → List Message → List Message → Type 0
  AreSent txs old new =
      (log1 : List Message) × (log2 : List Message) × IsSent secp txs.cancel_tx.txid
        txs.cancel_tx.partial_sigs (connecting daemon.coordinator_host ∷ old) log1
      × IsSent secp txs.emergency_tx.txid txs.emergency_tx.partial_sigs log1 log2
      × IsSent secp txs.unvault_emergency_tx.txid txs.unvault_emergency_tx.partial_sigs log2 new

  -- The three rows took the signatures, one after another.
  abbrev AreStored : RevocationTxs → DbVault → RevocationRows → Db → Db → Type 0
  AreStored txs vault rows old new =
      (db1 : Db) × (db2 : Db) × (db_update_presigned_tx is_finalizable vault.id rows.cancel_row.id
          txs.cancel_tx.partial_sigs old
        ≡ ok db1)
      × (db_update_presigned_tx is_finalizable vault.id rows.emer_row.id
            txs.emergency_tx.partial_sigs db1
          ≡ ok db2)
      × (db_update_presigned_tx is_finalizable vault.id rows.unemer_row.id
            txs.unvault_emergency_tx.partial_sigs db2
          ≡ ok new)

  share_rev_signatures-AreSent :
      (txs : RevocationTxs) (s s' : Session)
      → share_rev_signatures secp servers daemon
          (with_own txs.cancel_tx)
          (with_own txs.emergency_tx)
          (with_own txs.unvault_emergency_tx)
          s
        ≡ (ok tt, s')
      → (log : List Message) × AreSent txs s.log log × (s' ≡ record s { log = log })
  unfolding share_rev_signatures
  share_rev_signatures-AreSent txs s s' h =
      let send1 = send_sig_msg secp servers txs.cancel_tx.txid txs.cancel_tx.partial_sigs in
      let send2 = send_sig_msg secp servers txs.emergency_tx.txid txs.emergency_tx.partial_sigs in
      let send3 =
        send_sig_msg secp servers txs.unvault_emergency_tx.txid
          txs.unvault_emergency_tx.partial_sigs in
      let (t, h1) =
        require-after aborted
          (not (is_empty txs.cancel_tx.partial_sigs)
            && not (is_empty txs.emergency_tx.partial_sigs)
            && not (is_empty txs.unvault_emergency_tx.partial_sigs))
          s (λ _. connect secp servers daemon.coordinator_host >> (send1 >> (send2 >> send3))) h in
      let h2 =
        connect-after secp servers daemon.coordinator_host s (λ _. send1 >> (send2 >> send3)) h1 in
      let s2 = record s { log = connecting daemon.coordinator_host ∷ s.log } in
      let (log1, sent1, h3) =
        send_sig_msg-after secp servers txs.cancel_tx.txid txs.cancel_tx.partial_sigs s2
          (λ _. send2 >> send3) h2 in
      let (log2, sent2, h4) =
        send_sig_msg-after secp servers txs.emergency_tx.txid txs.emergency_tx.partial_sigs
          (record s { log = log1 }) (λ _. send3) h3 in
      let (log3, sent3, h5) =
        send_sig_msg-after secp servers txs.unvault_emergency_tx.txid
          txs.unvault_emergency_tx.partial_sigs (record s { log = log2 }) return
          (ap (λ p. after p return) h4) in
      (log3, (log1, log2, sent1, sent2, sent3), ap (λ p. p.1) (sym h5))

  share_rev_signatures-after :
      (txs : RevocationTxs) (s : Session)
      (k : Unit {0} → Session → Result Refusal (Unit {0}) × Session) {s' : Session}
      → after
          (share_rev_signatures secp servers daemon
            (with_own txs.cancel_tx)
            (with_own txs.emergency_tx)
            (with_own txs.unvault_emergency_tx)
            s)
          k
        ≡ (ok tt, s')
      → (log : List Message) × AreSent txs s.log log × (k tt (record s { log = log }) ≡ (ok tt, s'))
  share_rev_signatures-after txs s k {s'} h =
      let p =
        share_rev_signatures secp servers daemon (with_own txs.cancel_tx)
          (with_own txs.emergency_tx) (with_own txs.unvault_emergency_tx) s in
      let (u, e, h1) = after-eq-ok p k {b = tt} {w' = s'} h in
      let (log, sent, e1) = share_rev_signatures-AreSent txs s p.1 (ap (λ r. (r, p.1)) e) in
      (log, sent, subst (λ t. k tt t ≡ (ok tt, s')) {x = p.1} {y = record s { log = log }} e1 h1)

  store_revocations-AreStored :
      (txs : RevocationTxs) (vault : DbVault) (rows : RevocationRows) (s s' : Session)
      → store_revocations secp is_finalizable servers daemon txs (vault, rows) s ≡ (ok tt, s')
      → (db : Db) × AreStored txs vault rows s.db db × (s' ≡ record s { db = db })
  unfolding store_revocations
  store_revocations-AreStored txs vault rows s s' h =
      let merge1 =
        db_update_presigned_tx is_finalizable vault.id rows.cancel_row.id
          txs.cancel_tx.partial_sigs in
      let merge2 =
        db_update_presigned_tx is_finalizable vault.id rows.emer_row.id
          txs.emergency_tx.partial_sigs in
      let merge3 =
        db_update_presigned_tx is_finalizable vault.id rows.unemer_row.id
          txs.unvault_emergency_tx.partial_sigs in
      let (db1, e1, h1) = exec-after merge1 s (λ _. exec merge2 >> exec merge3) h in
      let (db2, e2, h2) = exec-after merge2 (record s { db = db1 }) (λ _. exec merge3) h1 in
      let (db3, e3, h3) =
        exec-after merge3 (record s { db = db2 }) return (ap (λ p. after p return) h2) in
      (db3, (db1, db2, e1, e2, e3), ap (λ p. p.1) (sym h3))

  store_revocations-after :
      (txs : RevocationTxs) (vault : DbVault) (rows : RevocationRows) (s : Session)
      (k : Unit {0} → Session → Result Refusal (Unit {0}) × Session) {s' : Session}
      → after (store_revocations secp is_finalizable servers daemon txs (vault, rows) s) k
        ≡ (ok tt, s')
      → (db : Db) × AreStored txs vault rows s.db db × (k tt (record s { db = db }) ≡ (ok tt, s'))
  unfolding store_revocations
  store_revocations-after txs vault rows s k {s'} h =
      let p = store_revocations secp is_finalizable servers daemon txs (vault, rows) s in
      let (u, e, h1) = after-eq-ok p k {b = tt} {w' = s'} h in
      let (db, saved, e1) =
        store_revocations-AreStored txs vault rows s p.1 (ap (λ r. (r, p.1)) e) in
      (db, saved, subst (λ t. k tt t ≡ (ok tt, s')) {x = p.1} {y = record s { db = db }} e1 h1)

  module _ (role : UserRole) (outpoint : OutPoint) where
    abbrev pub IsRecorded : RevocationTxs → Session → Session → Type 0
    IsRecorded txs s s' =
        (vault : DbVault) × (rows : RevocationRows) × (db : Db) × IsVetted secp daemon role outpoint
          s.db txs vault rows
        × AreStored txs vault rows s.db db
        × AreSent txs s.log s'.log
        × (s'.db ≡ db_mark_securing_vault vault.id db)

    -- If `revocationtxs` returns, the caller is not a manager only, there is a vault at the outpoint
    -- and it was 'funded', and each of the three transactions is the one that the database has for
    -- the vault, has a signature by the own key, none by a key that is not a stakeholder's, and only
    -- valid ones; the database then has these signatures merged into the three rows in turn, and the
    -- vault marked as 'securing' if it was 'funded' still; and the coordinator was sent each of the
    -- signatures.
    pub revocationtxs-ok :
        (txs : RevocationTxs) (s s' : Session)
        → revocationtxs secp is_finalizable servers daemon role outpoint txs s ≡ (ok tt, s')
        → IsRecorded txs s s'
    unfolding revocationtxs store_and_share
    revocationtxs-ok txs s s' h =
        let ((vault, rows), e, h1) =
          lift-after (revocation_checks secp daemon role outpoint txs s.db) s
            (λ checked. store_and_share secp is_finalizable servers daemon txs checked) h in
        let mark = exec (λ db. ok (db_mark_securing_vault vault.id db)) in
        let share =
          share_rev_signatures secp servers daemon (with_own txs.cancel_tx)
            (with_own txs.emergency_tx) (with_own txs.unvault_emergency_tx) in
        let (db, saved, h2) = store_revocations-after txs vault rows s (λ _. share >> mark) h1 in
        let (log, sent, h3) =
          share_rev_signatures-after txs (record s { db = db }) (λ _. mark) h2 in
        (
          vault,
          rows,
          db,
          revocation_checks-IsVetted secp daemon role outpoint s.db txs vault rows e,
          saved,
          subst (AreSent txs s.log) {x = log} {y = s'.log} (ap (λ p. p.1.log) h3) sent,
          ap (λ p. p.1.db) (sym h3),
        )

    -- If `revocationtxs` changes the database or sends a message, the caller is not a manager only,
    -- and all that its checks require of the vault, the transactions and the signatures holds.
    pub revocationtxs-IsVetted :
        (txs : RevocationTxs) (s : Session)
        → ((revocationtxs secp is_finalizable servers daemon role outpoint txs s).1 ≡ s)
          ⊎ ((vault : DbVault) × (rows : RevocationRows) × IsVetted secp daemon role outpoint s.db
                txs vault rows)
    unfolding revocationtxs
    revocationtxs-IsVetted txs s =
        elim (Result-cases (revocation_checks secp daemon role outpoint txs s.db)) [
          | inl ((vault, rows), e) ↦ inr (
            vault,
            rows,
            revocation_checks-IsVetted secp daemon role outpoint s.db txs vault rows e,
          )
          | inr (refusal, e) ↦ inl (
              ap
                (λ r.
                  (after (r, s)
                    (λ checked. store_and_share secp is_finalizable servers daemon txs checked)).1)
                e)
        ]
