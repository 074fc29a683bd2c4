-- ===== src/Bitcoind/Client.antt =====
-- src/daemon/bitcoind/interface.rs: the calls of bitcoind's RPC, by what a request answers.
pub mod Spender
use revaultd.Prelude.{
  ◌%◌, ◌^◌, ℕ, Bool, true, false, Option, none, some, List, [], ◌∷◌, ◌==◌, ◌%◌, ◌^◌, if◌then◌else◌,
  ok, err, ok_or,
}
use revaultd.Fault.{invalid_block_hash, Fault, Res, custom, api_break, panic, rpc_error, is_fatal}
use revaultd.Database.Schema.{BlockchainTip, Txid, OutPoint, outpoint_eq, BlockchainTip}
use revaultd.Bitcoind.Sync.{JsonUtxo}
use revaultd.Bitcoind.Json.{JsonInput, JsonTx, JsonEntry, WalletTx, parse_tx, spends}
use revaultd.Bitcoind.Run.{World, Run, ◌>>=◌, ◌>>◌, return, lift, request}

-- bitcoind, whose answers depend on the number of requests before. Texts of txids are those of the
-- library bitcoin.
pub record Rpc : Type 0 where
  pub to_text : Txid → ℕ
  pub from_text : ℕ → Option Txid
  pub gettransaction : ℕ → ℕ → Res JsonTx
  pub sendrawtransaction : ℕ → ℕ → Res (Unit {0})
  pub getmempoolentry : ℕ → Txid → Res (Unit {0})
  pub listsinceblock : ℕ → ℕ → Res (Option (List JsonEntry))
  pub getblockcount : ℕ → Res (Option ℕ)
  -- absent, or a text that may be no hash
  pub getblockhash : ℕ → ℕ → Res (Option (Option ℕ))
  pub listunspent : ℕ → Option ℕ → Res (List JsonUtxo)

module _ (rpc : Rpc) where
  unfoldable pub getblockhash : ℕ → Run ℕ
  getblockhash height = do
    res ← request (λ n. rpc.getblockhash n height)
    text ← lift (ok_or (custom api_break) res)
    lift (ok_or (custom invalid_block_hash) text)

  unfoldable pub get_tip : Run BlockchainTip
  unfolding getblockhash
  get_tip = do
    res ← request (λ n. rpc.getblockcount n)
    count ← lift (ok_or (custom api_break) res)
    hash ← getblockhash (count % 2 ^ 32)
    return (record { height = count % 2 ^ 32; hash = hash })

  unfoldable pub get_wallet_transaction : Txid → Run WalletTx
  unfolding parse_tx
  get_wallet_transaction txid = do
    res ← request (λ n. rpc.gettransaction n (rpc.to_text txid))
    lift (parse_tx res)

  unfoldable pub broadcast_transaction : ℕ → Run (Unit {0})
  broadcast_transaction hex = request (λ n. rpc.sendrawtransaction n hex)

  unfoldable pub rebroadcast_wallet_tx : Txid → Run (Unit {0})
  unfolding get_wallet_transaction
  rebroadcast_wallet_tx txid = do
    tx ← get_wallet_transaction txid
    request (λ n. rpc.sendrawtransaction n tx.hex)

  -- The RPC error -5 says that the mempool does not have the transaction.
  unfoldable pub mempool_answer : Res (Unit {0}) → Res Bool
  mempool_answer (ok _) = ok true
  mempool_answer (err (rpc_error code)) = if code == 5 then ok false else err (rpc_error code)
  mempool_answer (err e) = err e

  unfoldable pub is_in_mempool : Txid → Run Bool
  unfolding mempool_answer
  is_in_mempool txid = request (λ n. mempool_answer (rpc.getmempoolentry n txid))

  abbrev pub current_answer : Txid → Res WalletTx × World → Res Bool × World
  current_answer txid (err e, w) = (if is_fatal e then err e else ok false, w)
  current_answer txid (ok tx, w) = elim tx.blockheight [
    | some _ ↦ (ok true, w)
    | none ↦ is_in_mempool txid w
  ]

  unfoldable pub is_current : Txid → Run Bool
  unfolding get_wallet_transaction is_in_mempool
  is_current txid w = current_answer txid (get_wallet_transaction txid w)

  -- The transaction that the text names is fetched, and its inputs are compared.
  unfoldable pub is_spending : OutPoint → ℕ → Run Bool
  unfolding spends
  is_spending o spending_txid = do
    res ← request (λ n. rpc.gettransaction n spending_txid)
    vin ← lift (ok_or (custom api_break) res.vin)
    lift (spends o vin)

  -- One turn of the loop for an entry of the category "send"; `rest` is what follows.
  abbrev pub found_or : ℕ → Run (Option Txid) → Bool → Run (Option Txid)
  found_or spending_txid rest true =
      lift (ok_or (custom api_break) (rpc.from_text spending_txid)) >>= (λ txid. return (some txid))
  found_or spending_txid rest false = rest

  unfoldable pub visit : OutPoint → JsonEntry → Run (Option Txid) → Run (Option Txid)
  unfolding is_spending
  visit o entry rest = do
    spending_txid ← lift (ok_or (custom api_break) entry.txid)
    found ← is_spending o spending_txid
    found_or spending_txid rest found

  -- `for transaction in transactions`
  unfoldable pub search : OutPoint → List JsonEntry → Run (Option Txid)
  unfolding visit
  search o [] = return none
  search o (entry ∷ entries) =
      let rest = search o entries in if entry.is_send then visit o entry rest else rest

  unfoldable pub get_spender_txid : OutPoint → ℕ → Run (Option Txid)
  unfolding search
  get_spender_txid spent_outpoint block_hash = do
    res ← request (λ n. rpc.listsinceblock n block_hash)
    transactions ← lift (ok_or (custom api_break) res)
    search spent_outpoint transactions
