-- ===== src/Bitcoind/Thread.antt =====
-- src/daemon/bitcoind/mod.rs: the loop of the bitcoind thread, which answers the messages of the other
-- threads; and src/daemon/threadmessages.rs.
use revaultd.Prelude.{
  ℕ, Bool, true, false, Option, none, some, List, [], ◌∷◌, length, Result, ok, err,
}
use revaultd.Fault.{Res, panic, custom, no_receiver}
use revaultd.Database.Schema.{Txid}
use revaultd.Bitcoind.Run.{World, Run}
use revaultd.Bitcoind.Json.{WalletTx}
use revaultd.Bitcoind.Client.{Rpc, get_wallet_transaction}
use revaultd.Bitcoind.Retry.{SendError, Times, make_requests}

-- A message, and whether the other end waits for the answer.
pub data BitcoindMessageOut : Type 0 where
  shutdown : BitcoindMessageOut
  sync_progress : Bool → BitcoindMessageOut
  wallet_transaction : Txid → Bool → BitcoindMessageOut
  broadcast_transactions : List ℕ → Bool → BitcoindMessageOut

pub data Reply (F : Type 0) : Type 0 where
  progress : F → Reply F
  transaction : Option WalletTx → Reply F
  broadcasted : Res (Unit {0}) → Reply F

-- What the thread returns, its replies in their order, and the world.
abbrev pub Replies : Type 0 → Type 0
Replies F = Res (Unit {0}) × (List (Reply F) × World)

-- An error of bitcoind is no transaction; a panic of the parsing is one here.
abbrev pub found : Res WalletTx × World → Res (Option WalletTx) × World
found (ok tx, w) = (ok (some tx), w)
found (err panic, w) = (err panic, w)
found (err e, w) = (ok none, w)

abbrev pub discarded {ℓ} : {A : Type ℓ} → Res A → Res (Unit {0})
discarded (ok a) = ok tt
discarded (err e) = err e

unfoldable pub wallet_tx : Rpc → Txid → Run (Option WalletTx)
unfolding get_wallet_transaction
wallet_tx rpc txid w = found (get_wallet_transaction rpc txid w)

-- The batches of `sendrawtransaction`, which the n-th try answers or not.
abbrev pub Batch : Type 0
Batch = List ℕ → ℕ → Result SendError (List (Option (Res (Unit {0}))))

-- A batch, with fuel for the tries.
unfoldable pub broadcast_all : Times → Batch → List ℕ → Res (Unit {0})
unfolding make_requests
broadcast_all times batch txs = discarded (make_requests times (batch txs) (length txs) 92)

module _ {F : Type 0} (rpc : Rpc) (times : Times) (batch : Batch) where
  -- `resp_tx.send(…).map_err(…)?`
  abbrev pub replied : (World → Replies F) → Reply F → Bool → World → Replies F
  replied rest reply false w = (err (custom no_receiver), ([], w))
  replied rest reply true w =
      let (ending, (replies, w')) = rest w in (ending, (reply ∷ replies, w'))

  abbrev pub replied_tx : (World → Replies F) → Bool → Res (Option WalletTx) × World → Replies F
  replied_tx rest heard (ok tx, w) = replied rest (transaction tx) heard w
  replied_tx rest heard (err e, w) = (err e, ([], w))

  -- The poller thread is joined at the shutdown, and its error is a panic of this one.
  abbrev pub joined_poller : Res (Unit {0}) → World → Replies F
  joined_poller (ok u) w = (ok tt, ([], w))
  joined_poller (err e) w = (err panic, ([], w))

  -- `for msg in rx`, over the messages that are sent until the channel is closed. `progress_at` is the
  -- progress that the poller has stored when so many messages are left, and `poller` how it has ended.
  unfoldable pub bitcoind_main_loop :
      (ℕ → F) → Res (Unit {0}) → List BitcoindMessageOut → World → Replies F
  unfolding wallet_tx broadcast_all
  bitcoind_main_loop progress_at poller [] w = (ok tt, ([], w))
  bitcoind_main_loop progress_at poller (shutdown ∷ msgs) w = joined_poller poller w
  bitcoind_main_loop progress_at poller (sync_progress heard ∷ msgs) w =
      replied (bitcoind_main_loop progress_at poller msgs) (progress (progress_at (length msgs)))
        heard w
  bitcoind_main_loop progress_at poller (wallet_transaction txid heard ∷ msgs) w =
      replied_tx (bitcoind_main_loop progress_at poller msgs) heard (wallet_tx rpc txid w)
  bitcoind_main_loop progress_at poller (broadcast_transactions txs heard ∷ msgs) w =
      replied (bitcoind_main_loop progress_at poller msgs)
        (broadcasted (broadcast_all times batch txs)) heard w
