-- ===== src/Api/Spend/Set/Ordered.antt =====
-- src/daemon/jsonrpc/api.rs: what `setspendtx` has checked and done, and in which order, when it
-- returns.
use revaultd.Prelude.{
  ℕ, ◌≡◌, ◌≢◌, ◌≤◌, ap, subst, sym, ◌∙◌, arith, false, some, List, ok, map_err, length,
  map_err-eq-ok,
}
use revaultd.Prelude.Stateful.{◌>>=◌, after-eq-ok, return}
use revaultd.Database.Schema.{Txid, SpendPsbt, DbVault, DbSpendTransaction, Db}
use revaultd.Database.Spends.{db_spend_transaction}
use revaultd.Database.Queries.{get_at, db_vaults_from_spend}
use revaultd.Control.Signatures.{Secp, check_spend_signatures}
use revaultd.Control.Signatures.Spend.{AreInputsSigned, check_spend_signatures-AreInputsSigned}
use revaultd.Control.Session.{
  invalid_cosigners, invalid_spend_signature, aborted, from_sig_error, Message, Session, Net,
  Daemon, present,
}
use revaultd.Control.Session.Steps.{lift-after, present-after}
use revaultd.Control.Keys.{managers_xpubs, managers_threshold}
use revaultd.Control.Coordinator.{Txs, stripped, fetch_cosigs_signatures}
use revaultd.Control.Coordinator.Cosigners.{AreCosigned, polled, fetch_cosigs_signatures-ok}
use revaultd.Api.Role.{UserRole, stakeholder, manager_only}
use revaultd.Api.Spend.Store.Active.{manager_only-ok}
use revaultd.Api.Spend.Vet.{spend_checks}
use revaultd.Api.Spend.Set.{cosign, announce_and_broadcast, setspendtx}
use revaultd.Api.Spend.Set.Announced.{IsAnnounced, announce_and_broadcast-IsAnnounced}

module _ (secp : Secp) (servers : Net) (daemon : Daemon) (txs : Txs) where
  -- The Spend is known, none of its vaults is spent, and enough managers have signed each input.
  abbrev pub IsSettable : Db → Txid → DbSpendTransaction → Type 0
  IsSettable db spend_txid spend_tx =
      (db_spend_transaction db spend_txid ≡ some spend_tx)
      × (length spend_tx.psbt.unvault_txids ≤ length (db_vaults_from_spend db spend_txid))
      × (spend_tx.psbt.is_finalized ≡ false)
      × AreInputsSigned secp (managers_threshold daemon) spend_tx.psbt (managers_xpubs daemon)
          (get_at (db_vaults_from_spend db spend_txid)) 0 spend_tx.psbt.unvault_txids
          spend_tx.psbt.input_sigs

  spend_checks-IsSettable :
      (role : UserRole) (spend_txid : Txid) (db : Db) (spend_tx : DbSpendTransaction)
      (vaults : List (Txid × DbVault))
      → spend_checks secp daemon txs role spend_txid db ≡ ok (spend_tx, vaults)
      → (role ≢ stakeholder)
        × IsSettable db spend_txid spend_tx
        × (vaults ≡ db_vaults_from_spend db spend_txid)
  unfolding spend_checks
  spend_checks-IsSettable role spend_txid db spend_tx vaults h =
      let (e1, e2, e3, e4, e5) = parts in
      let (final, signed) =
        (check_spend_signatures-AreInputsSigned secp (managers_threshold daemon) spend_tx.psbt
            (managers_xpubs daemon) (get_at (db_vaults_from_spend db spend_txid))).0
          (map_err-eq-ok (from_sig_error invalid_spend_signature)
            (check_spend_signatures secp (managers_threshold daemon) spend_tx.psbt
              (managers_xpubs daemon) (get_at (db_vaults_from_spend db spend_txid)))
            e4) in
      (manager_only-ok role e1, (e2, e3, final, signed), e5)
    where
      parts :
          (manager_only role ≡ ok tt)
          × (db_spend_transaction db spend_txid ≡ some spend_tx)
          × (length spend_tx.psbt.unvault_txids ≤ length (db_vaults_from_spend db spend_txid))
          × (map_err (from_sig_error invalid_spend_signature) (
                check_spend_signatures secp
                  (managers_threshold daemon)
                  spend_tx.psbt
                  (managers_xpubs daemon)
                  (get_at (db_vaults_from_spend db spend_txid)))
              ≡ ok tt)
          × (vaults ≡ db_vaults_from_spend db spend_txid)
      parts = ground (arith, h)

  -- The cosigning servers were asked, the signatures that they answered were added to the Spend, and
  -- the Spend with all of them could be finalized.
  abbrev IsCosigned : SpendPsbt → SpendPsbt × SpendPsbt → List Message → List Message → Type 0
  IsCosigned psbt (signed, finalized) old new =
      (hosts : List ℕ) × (daemon.cosigs ≡ some hosts)
      × AreCosigned secp servers txs (stripped psbt) hosts psbt signed old
      × (txs.finalize_spend signed ≡ some finalized)
      × (new ≡ polled (stripped psbt) hosts old)

  cosign-IsCosigned :
      (psbt : SpendPsbt) (spends : SpendPsbt × SpendPsbt) (s s' : Session)
      → cosign secp servers daemon txs psbt s ≡ (ok spends, s')
      → IsCosigned psbt spends s.log s'.log × (s'.db ≡ s.db)
  unfolding cosign
  cosign-IsCosigned psbt spends s s' h =
      let finish = λ (signed : SpendPsbt).
        present invalid_cosigners (txs.finalize_spend signed)
        >>= (λ finalized. return (signed, finalized)) in
      let (hosts, e, h1) =
        present-after aborted daemon.cosigs s
          (λ hosts. fetch_cosigs_signatures secp servers txs psbt hosts >>= finish) h in
      let p = fetch_cosigs_signatures secp servers txs psbt hosts s in
      let (signed, e1, h2) = after-eq-ok p finish {b = spends} {w' = s'} h1 in
      let (same, added) =
        fetch_cosigs_signatures-ok secp servers txs psbt signed hosts s p.1
          (ap (λ r. (r, p.1)) e1) in
      let (finalized, e2, h3) =
        present-after invalid_cosigners (txs.finalize_spend signed) p.1
          (λ finalized. return (signed, finalized)) h2 in
      let both : (signed, finalized) ≡ spends = ground (arith, h3) in
      (
        (
          hosts,
          e,
          subst
              (λ (r : SpendPsbt × SpendPsbt).
                AreCosigned secp servers txs (stripped psbt) hosts psbt r.0 s.log)
              {x = (signed, finalized)} {y = spends} both added,
          subst (λ (r : SpendPsbt × SpendPsbt). txs.finalize_spend r.0 ≡ some r.1)
              {x = (signed, finalized)} {y = spends} both e2,
          ap (λ p. p.1.log) (sym h3) ∙ ap (λ t. t.log) same,
        ),
        ap (λ p. p.1.db) (sym h3) ∙ ap (λ t. t.db) same,
      )

  abbrev pub IsSpendSet : UserRole → Txid → Session → Session → Type 0
  IsSpendSet role spend_txid s s' =
      (role ≢ stakeholder)
      × ((spend_tx : DbSpendTransaction) × (spends : SpendPsbt × SpendPsbt) × (s1 : Session)
          × IsSettable s.db spend_txid spend_tx
          × IsCosigned spend_tx.psbt spends s.log s1.log
          × (s1.db ≡ s.db)
          × IsAnnounced secp servers daemon txs spend_txid (db_vaults_from_spend s.db spend_txid)
              spends s1 s')

  -- If `setspendtx` returns, the caller is not a stakeholder only, the Spend was known and not final,
  -- as many vaults are left of it as it has inputs, and for each input enough managers had signed, all
  -- validly; each cosigning server was then asked once, in order, to sign the Spend without its
  -- signatures, and has answered, and each signature of each answer was added to the Spend at its
  -- input; the Spend with all of these could be made final; the coordinator was sent the final Spend, and said that it stored it, before
  -- the one batch with the final Unvault of each vault was sent to bitcoind; and the database has the
  -- signed Spend, marked for broadcast.
  pub setspendtx-ordered :
      (role : UserRole) (spend_txid : Txid) (s s' : Session)
      → setspendtx secp servers daemon txs role spend_txid s ≡ (ok tt, s')
      → IsSpendSet role spend_txid s s'
  unfolding setspendtx
  setspendtx-ordered role spend_txid s s' h =
      let ((spend_tx, vaults), e, h1) =
        lift-after (spend_checks secp daemon txs role spend_txid s.db) s
          (λ checked.
            cosign secp servers daemon txs checked.0.psbt
            >>= announce_and_broadcast secp servers daemon txs spend_txid checked.1)
          h in
      let (allowed, settable, same) =
        spend_checks-IsSettable role spend_txid s.db spend_tx vaults e in
      let p = cosign secp servers daemon txs spend_tx.psbt s in
      let (spends, e1, h2) =
        after-eq-ok p (announce_and_broadcast secp servers daemon txs spend_txid vaults) {b = tt}
          {w' = s'} h1 in
      let (cosigned, same_db) =
        cosign-IsCosigned spend_tx.psbt spends s p.1 (ap (λ r. (r, p.1)) e1) in
      (
        allowed,
        (
          spend_tx,
          spends,
          p.1,
          settable,
          cosigned,
          same_db,
          subst (λ vs. IsAnnounced secp servers daemon txs spend_txid vs spends p.1 s') {x = vaults}
              {y = db_vaults_from_spend s.db spend_txid} same
              (announce_and_broadcast-IsAnnounced secp servers daemon txs spend_txid vaults spends
                p.1 s' h2),
        ),
      )
