-- ===== src/Api/Presigned/Unvault.antt =====
-- src/daemon/jsonrpc/api.rs: what `unvaulttx` stores and sends, and that it does nothing unless its
-- checks are passed.
use revaultd.Prelude.{◌≡◌, ◌⊎◌, inl, inr, sym, ap, subst, Bool, List, ◌∷◌, Result, ok, Result-cases}
use revaultd.Prelude.Stateful.{◌>>◌, return, after, after-eq-ok}
use revaultd.Database.Schema.{OutPoint, Psbt, DbVault, DbTransaction, Db}
use revaultd.Database.Presigned.{db_update_presigned_tx}
use revaultd.Database.Marks.{db_mark_activating_vault}
use revaultd.Control.Signatures.{Secp}
use revaultd.Control.Session.{Refusal, connecting, Message, Session, Net, Daemon, exec}
use revaultd.Control.Session.Steps.{exec-after, lift-after}
use revaultd.Control.Coordinator.{send_sig_msg, share_unvault_signatures}
use revaultd.Control.Coordinator.Sharing.{IsSent, connect-after, send_sig_msg-after}
use revaultd.Api.Role.{UserRole}
use revaultd.Api.Presigned.Checks.{unvault_checks}
use revaultd.Api.Presigned.Commands.{store_and_share_unvault, unvaulttx}
use revaultd.Api.Presigned.Vetted.Activation.{IsUnvaultVetted, unvault_checks-IsUnvaultVetted}

module _ (secp : Secp) (is_finalizable : Psbt → Bool) (servers : Net) (daemon : Daemon) where
  abbrev IsUnvaultSent : Psbt → List Message → List Message → Type 0
  IsUnvaultSent tx old new =
      IsSent secp tx.txid tx.partial_sigs (connecting daemon.coordinator_host ∷ old) new

  share_unvault_signatures-after :
      (tx : Psbt) (s : Session) (k : Unit {0} → Session → Result Refusal (Unit {0}) × Session)
      {s' : Session}
      → after (share_unvault_signatures secp servers daemon tx s) k ≡ (ok tt, s')
      → (log : List Message) × IsUnvaultSent tx s.log log
        × (k tt (record s { log = log }) ≡ (ok tt, s'))
  unfolding share_unvault_signatures
  share_unvault_signatures-after tx s k {s'} h =
      let send = send_sig_msg secp servers tx.txid tx.partial_sigs in
      let p = share_unvault_signatures secp servers daemon tx s in
      let (u, e, h1) = after-eq-ok p k {b = tt} {w' = s'} h in
      let h2 =
        connect-after secp servers daemon.coordinator_host s (λ _. send) (ap (λ r. (r, p.1)) e) in
      let (log, sent, h3) =
        send_sig_msg-after secp servers tx.txid tx.partial_sigs
          (record s { log = connecting daemon.coordinator_host ∷ s.log }) return
          (ap (λ p. after p return) h2) in
      (
        log,
        sent,
        subst (λ t. k tt t ≡ (ok tt, s')) {x = p.1} {y = record s { log = log }}
            (ap (λ p. p.1) (sym h3)) h1,
      )

  module _ (role : UserRole) (outpoint : OutPoint) where
    abbrev pub IsRecorded : Psbt → Session → Session → Type 0
    IsRecorded tx s s' =
        (vault : DbVault) × (row : DbTransaction) × (db : Db) × IsUnvaultVetted secp daemon role
          outpoint s.db tx vault row
        × (db_update_presigned_tx is_finalizable vault.id row.id tx.partial_sigs s.db ≡ ok db)
        × IsUnvaultSent tx s.log s'.log
        × (s'.db ≡ db_mark_activating_vault vault.id db)

    -- If `unvaulttx` returns, the caller is not a manager only, there is a vault at the outpoint and
    -- it was 'secured', and the Unvault transaction is the one that the database has for the vault,
    -- has a signature by the own key, none by a key that is not a stakeholder's, and only valid ones;
    -- the database then has these signatures merged into the row, and the vault marked as
    -- 'activating' if it was 'secured' still; and the coordinator was sent each of the signatures.
    pub unvaulttx-ok :
        (tx : Psbt) (s s' : Session)
        → unvaulttx secp is_finalizable servers daemon role outpoint tx s ≡ (ok tt, s')
        → IsRecorded tx s s'
    unfolding unvaulttx store_and_share_unvault
    unvaulttx-ok tx s s' h =
        let ((vault, row), e, h1) =
          lift-after (unvault_checks secp daemon role outpoint tx s.db) s
            (λ checked. store_and_share_unvault secp is_finalizable servers daemon tx checked) h in
        let mark = exec (λ db. ok (db_mark_activating_vault vault.id db)) in
        let share = share_unvault_signatures secp servers daemon tx in
        let (db, saved, h2) =
          exec-after (db_update_presigned_tx is_finalizable vault.id row.id tx.partial_sigs) s
            (λ _. share >> mark) h1 in
        let (log, sent, h3) =
          share_unvault_signatures-after tx (record s { db = db }) (λ _. mark) h2 in
        (
          vault,
          row,
          db,
          unvault_checks-IsUnvaultVetted secp daemon role outpoint s.db tx vault row e,
          saved,
          subst (IsUnvaultSent tx s.log) {x = log} {y = s'.log} (ap (λ p. p.1.log) h3) sent,
          ap (λ p. p.1.db) (sym h3),
        )

    -- If `unvaulttx` changes the database or sends a message, the caller is not a manager only, and
    -- all that its checks require of the vault, the transaction and the signatures holds.
    pub unvaulttx-IsUnvaultVetted :
        (tx : Psbt) (s : Session)
        → ((unvaulttx secp is_finalizable servers daemon role outpoint tx s).1 ≡ s)
          ⊎ ((vault : DbVault) × (row : DbTransaction) × IsUnvaultVetted secp daemon role outpoint
                s.db tx vault row)
    unfolding unvaulttx
    unvaulttx-IsUnvaultVetted tx s =
        elim (Result-cases (unvault_checks secp daemon role outpoint tx s.db)) [
          | inl ((vault, row), e) ↦ inr (
            vault,
            row,
            unvault_checks-IsUnvaultVetted secp daemon role outpoint s.db tx vault row e,
          )
          | inr (refusal, e) ↦ inl (
              ap
                (λ r.
                  (after (r, s)
                    (λ checked.
                      store_and_share_unvault secp is_finalizable servers daemon tx checked)).1)
                e)
        ]
