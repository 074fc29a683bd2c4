-- ===== src/Poller/Reorg/Stages.antt =====
-- src/daemon/bitcoind/poller.rs: while bitcoind's tip does not change, no step of the rescan of a
-- vault asks to start again.
use revaultd.Prelude.{
  ℕ, suc, ◌≡◌, ◌≢◌, ◌%◌, ◌^◌, refl, Bool, true, false, not, Option, none, some, [], ◌∷◌, ◌&&◌, ◌-◌,
  ◌+◌, ltb, arith, if◌then◌else◌, ok, err, ok_or,
}
use revaultd.Fault.{Res, panic}
use revaultd.Status.{
  unconfirmed, spent, canceled, unvault_emergency_vaulted, unvaulting, emergency_vaulted,
}
use revaultd.Database.Schema.{Txid, BlockchainTip, Psbt, DbVault, Db}
use revaultd.Database.Marks.{
  db_unconfirm_spend_dbtx, db_unconfirm_cancel_dbtx, db_unconfirm_unemer_dbtx,
  db_unconfirm_emer_dbtx,
}
use revaultd.Database.Interface.{db_unvault_dbtx}
use revaultd.Bitcoind.Run.{World, Run, after, ◌>>=◌, return, lift, get_db, exec}
use revaultd.Bitcoind.Client.{Rpc, getblockhash, get_tip, get_wallet_transaction}
use revaultd.Poller.Wallet.{Wallet, cancel_txid, unemer_txid, emer_txid}
use revaultd.Poller.Reorg.{
  tip_eq, is_any, second_layer, unconfirm_unvault, unconfirm_vault, if_still, on_height, look,
  look_if, rescan_terminal, rescan_unvault_tx, rescan_unvault, rescan_emer, rescan_deposit,
  rescan_vault,
}

-- Whenever it is asked, bitcoind answers the same height and the same hash for it.
abbrev pub IsStable : Rpc → ℕ → ℕ → Type 0
IsStable rpc count hash =
    ((n : ℕ) → rpc.getblockcount n ≡ ok (some count))
    × ((n : ℕ) → rpc.getblockhash n (count % 2 ^ 32) ≡ ok (some (some hash)))

abbrev pub tip_of : ℕ → ℕ → BlockchainTip
tip_of count hash = record { height = count % 2 ^ 32; hash = hash }

-- The routine does not ask to start again.
abbrev pub Finishes : Run Bool → Type 0
Finishes m = (w : World) → (m w).0 ≢ ok false

after-Finishes {ℓ} :
    {A : Type ℓ} (f : A → Run Bool)
    → ((a : A) → Finishes (f a))
    → (p : Res A × World) → (after p f).0 ≢ ok false
after-Finishes f hf (ok a, w) = hf a w
after-Finishes f hf (err e, w) = λ h. cc

bind-Finishes {ℓ} :
    {A : Type ℓ} (m : Run A) (f : A → Run Bool) → ((a : A) → Finishes (f a)) → Finishes (m >>= f)
bind-Finishes m f hf w = after-Finishes f hf (m w)

if-Finishes : (b : Bool) (m n : Run Bool) → Finishes m → Finishes n → Finishes (if b then m else n)
if-Finishes true m n hm hn = hm
if-Finishes false m n hm hn = hn

pub done-Finishes : Finishes (return true)
done-Finishes w h = cc

module _ (rpc : Rpc) (wallet : Wallet) (min_conf count hash : ℕ)
    (stable : IsStable rpc count hash) where
  pub get_tip_lem :
      (w : World)
      → get_tip rpc w ≡ (ok (tip_of count hash), record w { requests = suc (suc w.requests) })
  unfolding get_tip getblockhash
  get_tip_lem w = rw (stable.0 w.requests, stable.1 (suc w.requests)) refl

  pub tip_eq_refl : tip_eq (tip_of count hash) (tip_of count hash) ≡ true
  tip_eq_refl = ground arith

  if_still-Finishes :
      (next : Run Bool)
      → Finishes next
      → Finishes (if_still rpc wallet min_conf (tip_of count hash) next)
  unfolding if_still
  if_still-Finishes next h w =
      rw (get_tip_lem w, tip_eq_refl) (h (record w { requests = suc (suc w.requests) }))

  on_height-Finishes :
      (x : Option ℕ) (undo : Run (Unit {0})) (next : ℕ → Run Bool)
      → ((n : ℕ) → Finishes (next n))
      → Finishes (on_height rpc wallet min_conf x undo next)
  on_height-Finishes none undo next h = bind-Finishes undo (λ _. return true) (λ _. done-Finishes)
  on_height-Finishes (some n) undo next h = h n

  look-Finishes :
      (txid : Txid) (undo : Run (Unit {0})) (next : ℕ → Run Bool)
      → ((n : ℕ) → Finishes (next n))
      → Finishes (look rpc wallet min_conf (tip_of count hash) txid undo next)
  unfolding look
  look-Finishes txid undo next h = if_still-Finishes _ (
      bind-Finishes (get_wallet_transaction rpc txid)
        (λ tx. on_height rpc wallet min_conf tx.blockheight undo next)
        (λ tx. on_height-Finishes tx.blockheight undo next h))

  look_if-Finishes :
      (txid : Option Txid) (undo : Run (Unit {0})) (next : Run Bool)
      → Finishes next
      → Finishes (look_if rpc wallet min_conf (tip_of count hash) txid undo next)
  look_if-Finishes none undo next h = done-Finishes
  look_if-Finishes (some txid) undo next h = look-Finishes txid undo (λ _. next) (λ _. h)

  rescan_terminal-Finishes :
      (stored : Db) (v : DbVault)
      → Finishes (rescan_terminal rpc wallet min_conf stored (tip_of count hash) v)
  unfolding rescan_terminal
  rescan_terminal-Finishes stored v =
      if-Finishes (is_any (spent ∷ []) v) _ _
        (bind-Finishes (lift (ok_or panic v.spend_txid)) _ (λ txid.
          look-Finishes txid (exec (db_unconfirm_spend_dbtx v.id)) (λ _. return true)
            (λ _. done-Finishes)))
        (if-Finishes (is_any (canceled ∷ []) v) _ _
          (bind-Finishes (lift (cancel_txid wallet v stored)) _ (λ txid.
            look-Finishes txid (exec (db_unconfirm_cancel_dbtx v.id)) (λ _. return true)
              (λ _. done-Finishes)))
          (if-Finishes (is_any (unvault_emergency_vaulted ∷ []) v) _ _
            (bind-Finishes (lift (unemer_txid wallet v stored)) _ (λ txid.
              look_if-Finishes txid (exec (db_unconfirm_unemer_dbtx v.id)) (return true)
                done-Finishes))
            done-Finishes))

  rescan_unvault_tx-Finishes :
      (stored : Db) (v : DbVault) (tx : Option Psbt)
      → Finishes (rescan_unvault_tx rpc wallet min_conf stored (tip_of count hash) v tx)
  rescan_unvault_tx-Finishes stored v none = done-Finishes
  rescan_unvault_tx-Finishes stored v (some tx) =
      look-Finishes tx.txid (unconfirm_unvault rpc wallet min_conf v tx)
        (λ _. rescan_terminal rpc wallet min_conf stored (tip_of count hash) v)
        (λ _. rescan_terminal-Finishes stored v)

  rescan_unvault-Finishes :
      (stored : Db) (v : DbVault)
      → Finishes (rescan_unvault rpc wallet min_conf stored (tip_of count hash) v)
  unfolding rescan_unvault
  rescan_unvault-Finishes stored v =
      if-Finishes (second_layer v && not (is_any (unvaulting ∷ []) v)) _ _
        (bind-Finishes get_db
          (λ db.
            rescan_unvault_tx rpc wallet min_conf stored (tip_of count hash) v
              (db_unvault_dbtx db v.id))
          (λ db. rescan_unvault_tx-Finishes stored v (db_unvault_dbtx db v.id)))
        done-Finishes

  rescan_emer-Finishes :
      (stored : Db) (v : DbVault)
      → Finishes (rescan_emer rpc wallet min_conf stored (tip_of count hash) v)
  unfolding rescan_emer
  rescan_emer-Finishes stored v =
      if-Finishes (is_any (emergency_vaulted ∷ []) v) _ _
        (bind-Finishes (lift (emer_txid wallet v stored)) _ (λ txid.
          look_if-Finishes txid (exec (db_unconfirm_emer_dbtx v.id)) _
            (rescan_unvault-Finishes stored v)))
        (rescan_unvault-Finishes stored v)

  rescan_deposit-Finishes :
      (stored : Db) (v : DbVault) (h : ℕ)
      → Finishes (rescan_deposit rpc wallet min_conf stored (tip_of count hash) v h)
  unfolding rescan_deposit
  rescan_deposit-Finishes stored v h =
      if-Finishes (ltb (tip_of count hash).height h) _ _ (λ w e. cc)
        (if-Finishes (ltb ((tip_of count hash).height - h + 1) min_conf) _ _
          (bind-Finishes (unconfirm_vault rpc wallet min_conf v) _ (λ _. done-Finishes))
          (rescan_emer-Finishes stored v))

  pub rescan_vault-Finishes :
      (stored : Db) (v : DbVault)
      → Finishes (rescan_vault rpc wallet min_conf stored (tip_of count hash) v)
  unfolding rescan_vault
  rescan_vault-Finishes stored v = if-Finishes (is_any (unconfirmed ∷ []) v) _ _ done-Finishes (
      look-Finishes v.deposit_outpoint.txid (unconfirm_vault rpc wallet min_conf v) _
        (λ h. if_still-Finishes _ (rescan_deposit-Finishes stored v h)))
