-- ===== src/Api/Tests/Manager.antt =====
-- The manager stores, announces and broadcasts a Spend, and cancels; the lists and the keys.
use revaultd.Prelude.{
  ◌+◌, ◌*◌, ◌/◌, ◌^◌, ◌<◌, ◌≡◌, ◌⊎◌, ◌↔◌, inl, refl, false, some, [], ◌∷◌, ok, arith, tables,
}
use revaultd.Status.{active, unvaulted}
use revaultd.Sigs.{get, insert}
use mathlib.Core.List.Memᴰ
use revaultd.Database.Schema.{SpendPsbt, emergency, Psbt}
use revaultd.Database.Interface.{
  presigned_tx, db_unvault_transaction, db_vault_by_unvault_txid, join_txs,
}
use revaultd.Database.Spends.{db_spend_transaction, db_update_spend, db_mark_broadcastable_spend}
use revaultd.Database.Queries.{
  flat_map, spent_rows, insert_at, get_at, collected, db_vaults_from_spend, signed_txs,
  db_signed_emer_txs, db_signed_unemer_txs,
}
use revaultd.Control.Signatures.{
  split_last, check_signature, count_valid, check_input, check_inputs, check_spend_signatures,
}
use revaultd.Control.Signatures.Spend.{AreInputsSigned, check_spend_signatures-AreInputsSigned}
use revaultd.Control.Session.{Session}
use revaultd.Control.Keys.{contains, only_managers, managers_xpubs, managers_threshold}
use revaultd.Control.Vaults.{finalize_all, finalized_emer_txs}
use revaultd.Control.Coordinator.{
  add_input_signatures, add_signatures, poll_cosigs, fetch_cosigs_signatures,
  announce_spend_transaction, bitcoind_broadcast, check_spend_transaction_size,
}
use revaultd.Api.Role.{manager_stakeholder, manager_only, stakeholder_only}
use revaultd.Api.Broadcast
use revaultd.Api.Broadcast.Guarded.{IsCanceling, revault-guarded}
use revaultd.Api.Broadcast.Emergency.{IsBatched, emergency_complete}
use revaultd.Api.Spend.Create.{cpfp_overhead, change_of}
use revaultd.Api.Spend.Create.Change.{change_of-bounds}
use revaultd.Api.Spend.Store.{spent_unvaults, store_spend, update_checks, updatespendtx}
use revaultd.Api.Spend.Store.Active.{IsStored, updatespendtx-ok}
use revaultd.Api.Spend.Vet.{final_unvaults, spend_checks}
use revaultd.Api.Spend.Set.{cosign, broadcast_unvaults, announce_and_broadcast, setspendtx}
use revaultd.Api.Spend.Set.Ordered.{IsSpendSet, setspendtx-ordered}
use revaultd.Api.Tests.{curve, point, vault, row, spend, session, servers, daemon, txs}

abbrev after_setspendtx : Session
after_setspendtx = (setspendtx curve servers daemon txs manager_stakeholder 40 (session active)).1

setspendtx_returns :
    setspendtx curve servers daemon txs manager_stakeholder 40 (session active)
    ≡ (ok tt, after_setspendtx)
unfolding setspendtx spend_checks cosign announce_and_broadcast broadcast_unvaults final_unvaults
    manager_only db_spend_transaction db_vaults_from_spend flat_map spent_rows insert_at get_at
    collected check_spend_signatures check_inputs check_input count_valid check_signature split_last
    get managers_threshold managers_xpubs only_managers contains check_spend_transaction_size
    fetch_cosigs_signatures poll_cosigs add_signatures add_input_signatures
    announce_spend_transaction bitcoind_broadcast db_update_spend db_mark_broadcastable_spend
    db_unvault_transaction presigned_tx insert tables
setspendtx_returns = refl

setspendtx-ordered_example :
    IsSpendSet curve servers daemon txs manager_stakeholder 40 (session active) after_setspendtx
setspendtx-ordered_example =
    setspendtx-ordered curve servers daemon txs manager_stakeholder 40 (session active)
      after_setspendtx setspendtx_returns

check_spend_signatures-AreInputsSigned_example :
    (check_spend_signatures curve 1 spend (4 ∷ []) (λ _. some (vault active)) ≡ ok tt) ↔ (
      (spend.is_finalized ≡ false)
      × AreInputsSigned curve 1 spend
          (4 ∷ [])
          (λ _. some (vault active))
          0
          spend.unvault_txids
          spend.input_sigs)
check_spend_signatures-AreInputsSigned_example =
    check_spend_signatures-AreInputsSigned curve 1 spend (4 ∷ []) (λ _. some (vault active))

abbrev after_updatespendtx : Session
after_updatespendtx = (updatespendtx manager_stakeholder spend (session active)).1

updatespendtx_returns :
    updatespendtx manager_stakeholder spend (session active) ≡ (ok tt, after_updatespendtx)
unfolding updatespendtx update_checks spent_unvaults store_spend manager_only
    db_vault_by_unvault_txid join_txs db_spend_transaction db_update_spend tables
updatespendtx_returns = refl

updatespendtx-ok_example : IsStored manager_stakeholder spend (session active) after_updatespendtx
updatespendtx-ok_example =
    updatespendtx-ok manager_stakeholder spend (session active) after_updatespendtx
      updatespendtx_returns

abbrev stray : SpendPsbt
stray = record spend { unvault_txids = 77 ∷ [] }

-- Two satoshis for a virtual byte would be 500 for this weight.
change_added : change_of 200000 1000 500000 2 ≡ some 495998
unfolding change_of
change_added = refl

change_of-bounds_example :
    (200000 < 495998)
    × (1000 * (2 + 3) < 2 ^ 64)
    × (495998 + cpfp_overhead + 1000 * (2 + 3) / 4 ≡ 500000)
change_of-bounds_example =
    change_of-bounds 200000 1000 500000 2 495998 (omega arith) (omega arith) change_added

revault-guarded_example :
    ((Broadcast.revault curve servers txs point (session unvaulted)).1 ≡ session unvaulted)
    ⊎ IsCanceling curve servers txs point
        (session unvaulted)
        (Broadcast.revault curve servers txs point (session unvaulted)).1
revault-guarded_example = revault-guarded curve servers txs point (session unvaulted)

abbrev after_emergency : Session
after_emergency = (Broadcast.emergency curve servers txs manager_stakeholder (session active)).1

emergency_returns :
    Broadcast.emergency curve servers txs manager_stakeholder (session active)
    ≡ (ok tt, after_emergency)
unfolding Broadcast.emergency stakeholder_only finalized_emer_txs finalize_all db_signed_emer_txs
    db_signed_unemer_txs signed_txs flat_map bitcoind_broadcast tables
emergency_returns = refl

abbrev emergency_psbt : Psbt
emergency_psbt = record {
  txid = 13;
  wtxid = 13;
  inputs = 1;
  is_finalized = false;
  partial_sigs = [];
}

emergency_complete_example :
    IsBatched curve servers txs manager_stakeholder emergency_psbt (session active) after_emergency
emergency_complete_example =
    emergency_complete curve servers txs manager_stakeholder (session active) after_emergency
      emergency_psbt emergency_returns
      (inl (
        row 3 emergency 13,
        vault active,
        refl,
        Memᴰ.tail (Memᴰ.tail (Memᴰ.head refl)),
        Memᴰ.head refl,
        refl,
        refl,
        refl,
        refl,
      ))
