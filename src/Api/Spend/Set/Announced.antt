-- ===== src/Api/Spend/Set/Announced.antt =====
-- src/daemon/jsonrpc/api.rs: the end of `setspendtx`, the announcement of the Spend and the broadcast
-- of the Unvaults, when it succeeds.
use revaultd.Prelude.{
  ◌≡◌, ap, subst, sym, arith, Bool, true, Option, some, none, List, [], ◌∷◌, Result, ok, err,
}
use revaultd.Prelude.Stateful.{◌>>=◌, ◌>>◌, after, after-eq-ok, return}
use revaultd.Fault.{Res}
use revaultd.Database.Schema.{Txid, OutPoint, Psbt, SpendPsbt, DbVault}
use revaultd.Database.Spends.{db_update_spend, db_mark_broadcastable_spend}
use revaultd.Control.Signatures.{Secp}
use revaultd.Control.Session.{
  communication, spend_tx_storage, Refusal, connecting, set_spend_tx, broadcast, Message, Session,
  Net, Daemon, exec, require, ask,
}
use revaultd.Control.Session.Steps.{lift-after, require-after, ask-after}
use revaultd.Control.Coordinator.{
  Txs, announce_spend_transaction, broadcast_result, bitcoind_broadcast,
}
use revaultd.Control.Coordinator.Sharing.{connect-after}
use revaultd.Api.Spend.Vet.{final_unvaults, outpoints_of}
use revaultd.Api.Spend.Set.{broadcast_unvaults, announce_and_broadcast}

broadcast_result-after :
    (answer : Option (Res (Unit {0}))) (s s' : Session)
    (k : Unit {0} → Session → Result Refusal (Unit {0}) × Session)
    → after (broadcast_result answer s) k ≡ (ok tt, s')
    → k tt s ≡ (ok tt, s')
broadcast_result-after none s s' k h = absurd (ground arith)
broadcast_result-after (some (ok u)) s s' k h = h
broadcast_result-after (some (err e)) s s' k h = absurd (ground arith)

announce-ok :
    (secp : Secp) (servers : Net) (daemon : Daemon) (finalized : SpendPsbt)
    (outpoints : List OutPoint) (s s' : Session)
    → announce_spend_transaction secp servers daemon finalized outpoints s ≡ (ok tt, s')
    → (servers.set_spend_ack
          (set_spend_tx outpoints finalized ∷ connecting daemon.coordinator_host ∷ s.log)
        ≡ some true)
      × (s' ≡ record s {
        log = set_spend_tx outpoints finalized ∷ connecting daemon.coordinator_host ∷ s.log;
      })
unfolding announce_spend_transaction
announce-ok secp servers daemon finalized outpoints s s' h =
    let answer = λ (ack : Bool). require (communication spend_tx_storage) ack in
    let h1 =
      connect-after secp servers daemon.coordinator_host s
        (λ _. ask servers.set_spend_ack (set_spend_tx outpoints finalized) >>= answer) h in
    let s1 = record s { log = connecting daemon.coordinator_host ∷ s.log } in
    let (ack, e, h2) =
      ask-after servers.set_spend_ack (set_spend_tx outpoints finalized) s1 answer h1 in
    let (t, h3) =
      require-after (communication spend_tx_storage) ack
        (record s1 { log = set_spend_tx outpoints finalized ∷ s1.log }) return
        (ap (λ p. after p return) h2) in
    (
      subst (λ a. servers.set_spend_ack (set_spend_tx outpoints finalized ∷ s1.log) ≡ some a)
          {x = ack} {y = true} t e,
      ap (λ p. p.1) (sym h3),
    )

module _ (secp : Secp) (servers : Net) (daemon : Daemon) (txs : Txs) where
  -- The messages to bitcoind: none if there is nothing to broadcast.
  abbrev pub with_broadcast : List Psbt → List Message → List Message
  with_broadcast [] log = log
  with_broadcast (tx ∷ txs) log = broadcast (tx ∷ txs) ∷ log

  bitcoind_broadcast-after :
      (psbts : List Psbt) (s s' : Session)
      (k : Unit {0} → Session → Result Refusal (Unit {0}) × Session)
      → after (bitcoind_broadcast secp servers psbts s) k ≡ (ok tt, s')
      → k tt (record s { log = with_broadcast psbts s.log }) ≡ (ok tt, s')
  unfolding bitcoind_broadcast
  bitcoind_broadcast-after [] s s' k h = h
  bitcoind_broadcast-after (tx ∷ psbts) s s' k h =
      broadcast_result-after (servers.broadcasted (broadcast (tx ∷ psbts) ∷ s.log))
        (record s { log = broadcast (tx ∷ psbts) ∷ s.log }) s' k h

  -- The final Unvaults, the database with the signed Spend, and the messages with the announcement
  -- of the final Spend below the broadcast of the Unvaults.
  abbrev pub IsAnnounced :
      Txid → List (Txid × DbVault) → SpendPsbt × SpendPsbt → Session → Session → Type 0
  IsAnnounced spend_txid vaults (signed, finalized) s s' =
      (unvaults : List Psbt) × (final_unvaults txs (db_update_spend signed s.db) vaults
        ≡ ok unvaults)
      × (servers.set_spend_ack (
            set_spend_tx (outpoints_of vaults) finalized
            ∷ connecting daemon.coordinator_host
            ∷ s.log)
          ≡ some true)
      × (s'.log
          ≡ with_broadcast unvaults (
              set_spend_tx (outpoints_of vaults) finalized
              ∷ connecting daemon.coordinator_host
              ∷ s.log))
      × (s'.db ≡ db_mark_broadcastable_spend spend_txid (db_update_spend signed s.db))

  broadcast_unvaults-ok :
      (spend_txid : Txid) (vaults : List (Txid × DbVault)) (s s' : Session)
      → broadcast_unvaults secp servers daemon txs spend_txid vaults s ≡ (ok tt, s')
      → (unvaults : List Psbt) × (final_unvaults txs s.db vaults ≡ ok unvaults)
        × (s' ≡ record s {
          db = db_mark_broadcastable_spend spend_txid s.db;
          log = with_broadcast unvaults s.log;
        })
  unfolding broadcast_unvaults
  broadcast_unvaults-ok spend_txid vaults s s' h =
      let mark = exec (λ db. ok (db_mark_broadcastable_spend spend_txid db)) in
      let (unvaults, e, h1) =
        lift-after (final_unvaults txs s.db vaults) s
          (λ unvaults. bitcoind_broadcast secp servers unvaults >> mark) h in
      let h2 = bitcoind_broadcast-after unvaults s s' (λ _. mark) h1 in
      (unvaults, e, ap (λ p. p.1) (sym h2))

  pub announce_and_broadcast-IsAnnounced :
      (spend_txid : Txid) (vaults : List (Txid × DbVault)) (spends : SpendPsbt × SpendPsbt)
      (s s' : Session)
      → announce_and_broadcast secp servers daemon txs spend_txid vaults spends s ≡ (ok tt, s')
      → IsAnnounced spend_txid vaults spends s s'
  unfolding announce_and_broadcast broadcast_unvaults
  announce_and_broadcast-IsAnnounced spend_txid vaults (signed, finalized) s s' h =
      let update = exec (λ db. ok (db_update_spend signed db)) in
      let finish = broadcast_unvaults secp servers daemon txs spend_txid vaults in
      let p = announce_spend_transaction secp servers daemon finalized (outpoints_of vaults) s in
      let (u, e, h1) = after-eq-ok p (λ _. update >> finish) {b = tt} {w' = s'} h in
      let (acked, same) =
        announce-ok secp servers daemon finalized (outpoints_of vaults) s p.1
          (ap (λ r. (r, p.1)) e) in
      let s1 = record s {
        log =
            set_spend_tx (outpoints_of vaults) finalized
            ∷ connecting daemon.coordinator_host
            ∷ s.log;
      } in
      let h2 = subst (λ t. (update >> finish) t ≡ (ok tt, s')) {x = p.1} {y = s1} same h1 in
      let (unvaults, e1, left) =
        broadcast_unvaults-ok spend_txid vaults (record s1 { db = db_update_spend signed s.db }) s'
          h2 in
      (unvaults, e1, acked, ap (λ t. t.log) left, ap (λ t. t.db) left)
