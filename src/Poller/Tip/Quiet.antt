-- ===== src/Poller/Tip/Quiet.antt =====
-- src/daemon/bitcoind/poller.rs: `new_tip_event` leaves the vaults alone that wait for no
-- confirmation.
use revaultd.Prelude.{
  ℕ, suc, ◌≡◌, ◌≢◌, ap, refl, sym, subst, Bool, true, false, Option, none, some, List, [], ◌∷◌,
  if◌then◌else◌, arith, All, All-imp, ok, err, ok_or, exists,
}
use revaultd.Fault.{panic, Res}
use revaultd.Status.{
  spent, canceled, unvault_emergency_vaulted, emergency_vaulted, VaultStatus, canceling, spending,
  emergency_vaulting, unvault_emergency_vaulting,
}
use revaultd.Database.Schema.{
  BlockchainTip, unvault, cancel, emergency, unvault_emergency, DbSpendTransaction, Txid, Psbt,
  DbVault, DbTransaction, Db,
}
use revaultd.Database.Spends.{db_broadcastable_spend_transactions, db_mark_broadcasted_spend}
use revaultd.Database.Interface.{
  db_spending_vaults, db_canceling_vaults, db_emering_vaults, db_unemering_vaults,
  db_unvault_transaction, join_txs, of_kind,
}
use revaultd.Database.Marks.{
  db_update_tip, db_update_tip_dbtx, db_mark_spent_unvault, db_mark_canceled_unvault,
  db_mark_emergencied_unvault, db_mark_emergencied_vault, db_mark_vault_as, db_confirm_unvault,
}
use revaultd.Bitcoind.Run.{
  World, Run, ◌>>=◌, ◌>>◌, return, lift, exec, on_unvaults, or_default, each, request,
}
use revaultd.Bitcoind.Json.{parse_tx}
use revaultd.Bitcoind.Client.{Rpc, get_wallet_transaction, is_in_mempool, broadcast_transaction}
use revaultd.Poller.Wallet.{Wallet}
use revaultd.Poller.Tip.{
  broadcasted, attempt, maybe_confirm_spend, maybe_confirm_cancel, maybe_confirm_emer,
  maybe_confirm_unemer, if_confirmed, maybe_confirm, track, back_to_unvaulted, mark_unvaulted,
  track_spend, track_cancel, track_emer, track_unemer, mark_confirmed_spends,
  mark_confirmed_cancels, mark_confirmed_emers, mark_confirmed_unemers, maybe_broadcast_spend,
  maybe_broadcast_spend_transactions, new_tip_event,
}
use revaultd.Cache.{insert}
use revaultd.Poller.Tip.Frame.{
  lift-Frames, unvault_row-owned, Apart, rows_owned, join-Apart, rows_of, is_pending, is_tx_of,
  OneOwner, Quiet, Frames, bind-Frames, each-Frames, or_default-Frames, mark-Frames,
  confirm_unvault-Frames,
}

module _ (k : ℕ) (txs : List DbTransaction) (one : OneOwner txs) (rpc : Rpc) where
  get_wallet_transaction-Frames : (txid : Txid) → Frames k txs one (get_wallet_transaction rpc txid)
  unfolding get_wallet_transaction
  get_wallet_transaction-Frames txid w q =
      bind-Frames k txs one (request (λ n. rpc.gettransaction n (rpc.to_text txid)))
        (λ res. lift (parse_tx res)) (λ v qv. (qv.0, refl)) (λ a v qv. (qv.0, refl)) w q

  is_in_mempool-Frames : (txid : Txid) → Frames k txs one (is_in_mempool rpc txid)
  unfolding is_in_mempool
  is_in_mempool-Frames txid w q = (q.0, refl)

  if_confirmed-Frames :
      (h : Option ℕ) (mark : Db → Db)
      → Frames k txs one (exec mark)
      → Frames k txs one (if_confirmed rpc h mark)
  if_confirmed-Frames none mark hm w q = (q.0, refl)
  if_confirmed-Frames (some h) mark hm w q =
      bind-Frames k txs one (exec mark) (λ _. return true) hm (λ a v qv. (qv.0, refl)) w q

  maybe_confirm-Frames :
      (txid : Txid) (mark : Db → Db)
      → Frames k txs one (exec mark)
      → Frames k txs one (maybe_confirm rpc txid mark)
  unfolding maybe_confirm
  maybe_confirm-Frames txid mark hm =
      bind-Frames k txs one (get_wallet_transaction rpc txid)
        (λ tx. if_confirmed rpc tx.blockheight mark) (get_wallet_transaction-Frames txid)
        (λ tx. if_confirmed-Frames tx.blockheight mark hm)

  if-Frames :
      (b : Bool) (m n : Run (Unit {0}))
      → Frames k txs one m
      → Frames k txs one n
      → Frames k txs one (if b then m else n)
  if-Frames true m n hm hn = hm
  if-Frames false m n hm hn = hn

  track-Frames :
      (check : Run Bool) (txid : Txid) (evicted : Run (Unit {0}))
      → Frames k txs one check
      → Frames k txs one evicted
      → Frames k txs one (track rpc check txid evicted)
  unfolding track
  track-Frames check txid evicted hc he =
      bind-Frames k txs one (or_default true check)
        (λ handled. if handled then return tt else asked)
        (or_default-Frames k txs one true check hc)
        (λ b.
          if-Frames b (return tt) asked (λ w q. (q.0, refl))
            (bind-Frames k txs one (is_in_mempool rpc txid)
              (λ in_mempool. if in_mempool then return tt else evicted) (is_in_mempool-Frames txid)
              (λ b. if-Frames b (return tt) evicted (λ w q. (q.0, refl)) he)))
    where
      asked : Run (Unit {0})
      asked = is_in_mempool rpc txid >>= λ in_mempool. (if in_mempool then return tt else evicted)

  -- The routines for a vault `v` other than `k`, with `r` a transaction of it.
  module _ (wallet : Wallet) (v : DbVault) (ne : v.id ≢ k) where
    back_to_unvaulted-Frames :
        (tx : Psbt)
        → exists (is_tx_of tx.txid v.id) txs ≡ true
        → Frames k txs one (back_to_unvaulted rpc wallet v tx)
    unfolding back_to_unvaulted
    back_to_unvaulted-Frames tx own w q =
        bind-Frames k txs one (exec (db_confirm_unvault tx.txid))
          (λ _. on_unvaults (
            insert (wallet.unvault_outpoint tx v.derivation_index)
              (record (wallet.unvault_txo tx v.derivation_index) { is_confirmed = true })))
          (confirm_unvault-Frames k txs one tx.txid v.id own ne) (λ a u qu. (qu.0, refl)) w q

    mark_unvaulted-Frames : Frames k txs one (mark_unvaulted rpc wallet v)
    unfolding mark_unvaulted
    mark_unvaulted-Frames w q =
        lift-Frames k txs one (db_unvault_transaction w.db v.id)
          (λ r. back_to_unvaulted rpc wallet v r.psbt)
          (λ r e. back_to_unvaulted-Frames r.psbt (owns w.db r e q.0)) w q
      where
        owns :
            (db : Db) (r : DbTransaction)
            → db_unvault_transaction db v.id ≡ ok r
            → db.presigned ≡ txs
            → exists (is_tx_of r.psbt.txid v.id) txs ≡ true
        owns db r e same =
            subst (λ ts. exists (is_tx_of r.psbt.txid v.id) ts ≡ true) same
              (unvault_row-owned db v.id r e)

    check_mark-Frames :
        (txid : Txid) (s : VaultStatus)
        → Frames k txs one (maybe_confirm rpc txid (db_mark_vault_as v.id s))
    check_mark-Frames txid s =
        maybe_confirm-Frames txid (db_mark_vault_as v.id s) (mark-Frames k txs one v.id s ne)

    track_spend-Frames :
        (r : DbTransaction)
        → exists (is_tx_of r.psbt.txid v.id) txs ≡ true
        → Frames k txs one (track_spend rpc wallet (v, r))
    unfolding track_spend maybe_confirm_spend db_mark_spent_unvault
    track_spend-Frames r own w q =
        lift-Frames k txs one (ok_or panic v.spend_txid)
          (λ spend_txid.
            track rpc (maybe_confirm_spend rpc v spend_txid) spend_txid
              (back_to_unvaulted rpc wallet v r.psbt))
          (λ txid e.
            track-Frames (maybe_confirm_spend rpc v txid) txid
              (back_to_unvaulted rpc wallet v r.psbt) (check_mark-Frames txid spent)
              (back_to_unvaulted-Frames r.psbt own))
          w q

    track_cancel-Frames : (r : DbTransaction) → Frames k txs one (track_cancel rpc wallet (v, r))
    unfolding track_cancel maybe_confirm_cancel db_mark_canceled_unvault
    track_cancel-Frames r w q =
        track-Frames (maybe_confirm_cancel rpc v r.psbt.txid) r.psbt.txid
          (mark_unvaulted rpc wallet v) (check_mark-Frames r.psbt.txid canceled)
          mark_unvaulted-Frames w q

    track_unemer-Frames : (r : DbTransaction) → Frames k txs one (track_unemer rpc wallet (v, r))
    unfolding track_unemer maybe_confirm_unemer db_mark_emergencied_unvault
    track_unemer-Frames r w q =
        track-Frames (maybe_confirm_unemer rpc v r.psbt.txid) r.psbt.txid
          (mark_unvaulted rpc wallet v) (check_mark-Frames r.psbt.txid unvault_emergency_vaulted)
          mark_unvaulted-Frames w q

    track_emer-Frames : (r : DbTransaction) → Frames k txs one (track_emer rpc wallet (v, r))
    unfolding track_emer maybe_confirm_emer db_mark_emergencied_vault
    track_emer-Frames r w q =
        track-Frames (maybe_confirm_emer rpc v r.psbt.txid) r.psbt.txid
          (mark_unvaulted rpc wallet v) (check_mark-Frames r.psbt.txid emergency_vaulted)
          mark_unvaulted-Frames w q

module _ (k : ℕ) (txs : List DbTransaction) (one : OneOwner txs) (rpc : Rpc) (wallet : Wallet) where
  -- A loop over a join of vaults that all wait for a confirmation.
  loop-Frames :
      (p : DbVault → DbTransaction → Bool) (body : DbVault × DbTransaction → Run (Unit {0}))
      → ((v : DbVault) (r : DbTransaction) → p v r ≡ true → is_pending v ≡ true)
      → ((x : DbVault × DbTransaction) → Apart k txs x → Frames k txs one (body x))
      → (w : World) → Quiet k txs one w
      → ((each (join_txs p w.db.vaults w.db.presigned) body w).1.db.presigned ≡ txs)
        × (rows_of k (each (join_txs p w.db.vaults w.db.presigned) body w).1 ≡ rows_of k w)
  loop-Frames p body hp hb w q =
      each-Frames k txs one (join_txs p w.db.vaults w.db.presigned) body
        (subst (All (λ x. Frames k txs one (body x))) (sym (ap (join_txs p w.db.vaults) q.0)) (
          All-imp hb (join_txs p w.db.vaults txs)
            (join-Apart k txs p w.db.vaults hp q.1 (rows_owned k txs txs (λ t e. e)))))
        w q

  mark_confirmed_spends-Frames : Frames k txs one (mark_confirmed_spends rpc wallet)
  unfolding mark_confirmed_spends db_spending_vaults
  mark_confirmed_spends-Frames w q =
      loop-Frames (of_kind spending unvault) (track_spend rpc wallet) (λ v r e. ground arith)
        (λ (v, r) a. track_spend-Frames k txs one rpc wallet v a.0 r a.1) w q

  mark_confirmed_cancels-Frames : Frames k txs one (mark_confirmed_cancels rpc wallet)
  unfolding mark_confirmed_cancels db_canceling_vaults
  mark_confirmed_cancels-Frames w q =
      loop-Frames (of_kind canceling cancel) (track_cancel rpc wallet) (λ v r e. ground arith)
        (λ (v, r) a. track_cancel-Frames k txs one rpc wallet v a.0 r) w q

  mark_confirmed_emers-Frames : Frames k txs one (mark_confirmed_emers rpc wallet)
  unfolding mark_confirmed_emers db_emering_vaults
  mark_confirmed_emers-Frames w q =
      loop-Frames (of_kind emergency_vaulting emergency) (track_emer rpc wallet)
        (λ v r e. ground arith) (λ (v, r) a. track_emer-Frames k txs one rpc wallet v a.0 r) w q

  mark_confirmed_unemers-Frames : Frames k txs one (mark_confirmed_unemers rpc wallet)
  unfolding mark_confirmed_unemers db_unemering_vaults
  mark_confirmed_unemers-Frames w q =
      loop-Frames (of_kind unvault_emergency_vaulting unvault_emergency) (track_unemer rpc wallet)
        (λ v r e. ground arith) (λ (v, r) a. track_unemer-Frames k txs one rpc wallet v a.0 r) w q

  -- A Spend that is broadcasted is marked in its own table.
  marked :
      (txid : Txid) (r : Res (Unit {0})) (v : World)
      → Quiet k txs one v
      → ((broadcasted rpc wallet txid (r, v)).1.db.presigned ≡ txs)
        × (rows_of k (broadcasted rpc wallet txid (r, v)).1 ≡ rows_of k v)
  unfolding db_mark_broadcasted_spend
  marked txid (ok _) v q = (q.0, refl)
  marked txid (err e) v q = (q.0, refl)

  attempt-Frames : (txid : Txid) (tx : Option ℕ) → Frames k txs one (attempt rpc wallet txid tx)
  unfolding attempt broadcast_transaction
  attempt-Frames txid none w q = (q.0, refl)
  attempt-Frames txid (some tx) w q =
      marked txid (rpc.sendrawtransaction w.requests tx) (record w { requests = suc w.requests }) q

  maybe_broadcast_spend-Frames :
      (s : DbSpendTransaction) → Frames k txs one (maybe_broadcast_spend rpc wallet s)
  unfolding maybe_broadcast_spend
  maybe_broadcast_spend-Frames s w q = attempt-Frames s.psbt.txid (wallet.finalize s.psbt) w q

  broadcasts-Frames : Frames k txs one (maybe_broadcast_spend_transactions rpc wallet)
  unfolding maybe_broadcast_spend_transactions
  broadcasts-Frames w q =
      each-Frames k txs one (db_broadcastable_spend_transactions w.db)
        (maybe_broadcast_spend rpc wallet) (each_one (db_broadcastable_spend_transactions w.db)) w q
    where
      each_one :
          (ss : List DbSpendTransaction)
          → All (λ s. Frames k txs one (maybe_broadcast_spend rpc wallet s)) ss
      each_one [] = tt
      each_one (s ∷ ss) = (maybe_broadcast_spend-Frames s, each_one ss)

  events-Frames : (tip : BlockchainTip) → Frames k txs one (new_tip_event rpc wallet tip)
  unfolding new_tip_event db_update_tip db_update_tip_dbtx
  events-Frames tip =
      bind-Frames k txs one (exec (db_update_tip tip)) (λ _. step1) (λ w q. (q.0, refl))
        (λ _.
          bind-Frames k txs one (maybe_broadcast_spend_transactions rpc wallet) (λ _. step2)
            broadcasts-Frames
            (λ _.
              bind-Frames k txs one (mark_confirmed_spends rpc wallet) (λ _. step3)
                mark_confirmed_spends-Frames
                (λ _.
                  bind-Frames k txs one (mark_confirmed_cancels rpc wallet) (λ _. step4)
                    mark_confirmed_cancels-Frames
                    (λ _.
                      bind-Frames k txs one (mark_confirmed_emers rpc wallet)
                        (λ _. mark_confirmed_unemers rpc wallet) mark_confirmed_emers-Frames
                        (λ _. mark_confirmed_unemers-Frames)))))
    where
      step4 : Run (Unit {0})
      step4 = mark_confirmed_emers rpc wallet >> mark_confirmed_unemers rpc wallet

      step3 : Run (Unit {0})
      step3 = mark_confirmed_cancels rpc wallet >> step4

      step2 : Run (Unit {0})
      step2 = mark_confirmed_spends rpc wallet >> step3

      step1 : Run (Unit {0})
      step1 = maybe_broadcast_spend_transactions rpc wallet >> step2

-- In a database where a txid belongs to the transactions of one vault only, `new_tip_event` leaves
-- the rows of a vault as they are if none of them is 'spending', 'canceling',
-- 'emergencyvaulting' or 'unvaultemergencyvaulting', whatever bitcoind answers, and also if it
-- fails.
pub new_tip_event-quiet :
    (rpc : Rpc) (wallet : Wallet) (tip : BlockchainTip) (w : World) (k : ℕ)
    → OneOwner w.db.presigned
    → exists is_pending (rows_of k w) ≡ false
    → rows_of k (new_tip_event rpc wallet tip w).1 ≡ rows_of k w
new_tip_event-quiet rpc wallet tip w k one quiet =
    (events-Frames k w.db.presigned one rpc wallet tip w (refl, quiet)).1
