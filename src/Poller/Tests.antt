-- ===== src/Poller/Tests.antt =====
-- A wallet with two vaults: the Unvault of the first is spent by a transaction of the managers, or
-- the first is being canceled; the second is active.
mod Startup
mod Waiting
use revaultd.Prelude.{
  ℕ, ◌≡◌, ◌≢◌, refl, true, false, none, some, List, [], ◌∷◌, ◌==◌, if◌then◌else◌, arith, ok, err,
  exists, tables,
}
use revaultd.Fault.{panic, Res, server}
use revaultd.Status.{emergency_vaulted, VaultStatus, active, canceling, unvaulted}
use revaultd.Database.Schema.{
  Txid, OutPoint, BlockchainTip, Psbt, DbVault, DbTransaction, TransactionType, unvault, cancel,
}
use revaultd.Database.Interface.{
  db_vault_by_unvault_txid, db_cancel_transaction, presigned_tx, join_txs,
}
use revaultd.Bitcoind.Run.{World}
use revaultd.Bitcoind.Json.{JsonTx, JsonEntry, parse_tx, spends}
use revaultd.Bitcoind.Client.{
  Rpc, is_current, get_wallet_transaction, rebroadcast_wallet_tx, get_spender_txid, search, visit,
  is_spending,
}
use revaultd.Bitcoind.Client.Spender.{Answers, get_spender_txid-Answers}
use revaultd.Poller.Wallet.{Wallet, cancel_txid, unemer_txid}
use revaultd.Poller.Tip.{new_tip_event}
use revaultd.Poller.Tip.Frame.{rows_of, OneOwner}
use revaultd.Poller.Tip.Quiet.{new_tip_event-quiet}
use revaultd.Cache.{get, set_confirmed}
use revaultd.Poller.Reorg.{comprehensive_rescan, kick, unconfirm_vault}
use revaultd.Poller.Reorg.Fuel.{comprehensive_rescan-fuel}
use revaultd.Database.Deposits.{
  db_unconfirm_deposit_dbtx, spend_ids_of, delete_spend_of, is_referenced,
}
use revaultd.Poller.Unvaults.{spend, unvault_spender, unless_canceled, search_spend, spend_of}
use revaultd.Poller.Unvaults.Spends.{WasCurrent, WasFound, unvault_spender-Spend}

abbrev psbt : Txid → Psbt
psbt t = record { txid = t; wtxid = t; inputs = 1; is_finalized = false; partial_sigs = [] }

abbrev vault : ℕ → VaultStatus → DbVault
vault k s = record {
  id = k;
  wallet_id = 1;
  status = s;
  blockheight = 100;
  deposit_outpoint = record { txid = k; vout = 0 };
  amount = 500000;
  derivation_index = 0;
  received_at = 9;
  updated_at = 9;
  spend_txid = none;
}

abbrev row : ℕ → TransactionType → Txid → DbTransaction
row i t txid = record {
  id = i;
  vault_id = 1;
  tx_type = t;
  psbt = psbt txid;
  is_fully_signed = true;
}

abbrev world : VaultStatus → World
world s = record {
  db = record {
    now = 50;
    version = 0 ∷ [];
    tips = [];
    wallets = [];
    vaults = vault 1 s ∷ vault 2 active ∷ [];
    presigned = row 1 unvault 11 ∷ row 2 cancel 12 ∷ [];
    spend_inputs = [];
    spends = [];
  };
  deposits_cache = [];
  unvaults_cache = [];
  requests = 0;
  current_unused_index = 0;
}

-- The transaction 40 spends the Unvault output.
abbrev seen : JsonTx
seen = record {
  hex = some 40;
  blockheight = some (some 120);
  timereceived = some 77;
  vin = some (record { txid = some 11; vout = some 0 } ∷ []);
}

abbrev wallet_answer : ℕ → Res JsonTx
wallet_answer text = if text == 40 then ok seen else err server

abbrev pub node : Rpc
node = record {
  to_text = λ t. t;
  from_text = λ t. some t;
  gettransaction = λ _ text. wallet_answer text;
  sendrawtransaction = λ _ _. ok tt;
  getmempoolentry = λ _ _. err server;
  listsinceblock = λ _ _. ok (some (record { is_send = true; txid = some 40 } ∷ []));
  listunspent = λ _ _. ok [];
  getblockcount = λ _. ok (some 121);
  getblockhash = λ _ _. ok (some (some 8));
}

abbrev manager : Wallet
manager = record {
  is_stakeholder = false;
  transaction_chain = λ _ _ _. err server;
  transaction_chain_manager = λ _ _ _. err server;
  unvault_outpoint = λ tx _. record { txid = tx.txid; vout = 0 };
  unvault_txo = λ _ _. record { value = 490000; script_pubkey = 3; is_confirmed = false };
  finalize = λ _. none;
}

abbrev tip : BlockchainTip
tip = record { height = 121; hash = 8 }

abbrev point : OutPoint
point = record { txid = 11; vout = 0 }

one_owner : (s : VaultStatus) → OneOwner (world s).db.presigned
unfolding exists
one_owner s txid i j hi hj = ground arith

new_tip_event-quiet_example :
    rows_of 2 (new_tip_event node manager tip (world canceling)).1 ≡ rows_of 2 (world canceling)
unfolding tables
new_tip_event-quiet_example =
    new_tip_event-quiet node manager tip (world canceling) 2 (one_owner canceling) refl

found :
    get_spender_txid node point 8 (world unvaulted)
    ≡ (ok (some 40), record (world unvaulted) { requests = 2 })
unfolding get_spender_txid search visit is_spending spends
found = refl

get_spender_txid-Answers_example :
    (es : List JsonEntry) × (node.listsinceblock 0 8 ≡ ok (some es))
    × Answers node point es (some 40)
get_spender_txid-Answers_example =
    get_spender_txid-Answers node point 8 (world unvaulted)
      (record (world unvaulted) { requests = 2 }) {a = some 40} found

spent :
    unvault_spender node manager tip point (world unvaulted)
    ≡ (ok (some (spend 40)), record (world unvaulted) { requests = 4 })
unfolding unvault_spender unless_canceled search_spend spend_of get_spender_txid search visit
    is_spending spends db_vault_by_unvault_txid join_txs cancel_txid unemer_txid
    db_cancel_transaction presigned_tx is_current get_wallet_transaction parse_tx tables
spent = refl

unvault_spender-Spend_example :
    (v : DbVault) × (r : DbTransaction) × (db_vault_by_unvault_txid (world unvaulted).db 11
      ≡ some (v, r))
    × (cancel_txid manager v (world unvaulted).db ≢ ok 40)
    × (unemer_txid manager v (world unvaulted).db ≢ ok (some 40))
    × WasCurrent node 40
    × WasFound node point 8 40
unvault_spender-Spend_example =
    unvault_spender-Spend node manager tip point 40 (world unvaulted)
      (record (world unvaulted) { requests = 4 }) spent

-- An emergencied vault, whose deposit left the cache when it was spent: the rescan stops.
unconfirm_emergency_vaulted :
    (unconfirm_vault node manager 6 (vault 1 emergency_vaulted) (world emergency_vaulted)).0
    ≡ err panic
unfolding unconfirm_vault kick rebroadcast_wallet_tx get_wallet_transaction parse_tx
    db_unconfirm_deposit_dbtx spend_ids_of delete_spend_of is_referenced tables set_confirmed get
unconfirm_emergency_vaulted = refl

comprehensive_rescan-fuel_example :
    comprehensive_rescan node manager 6 (world canceling).db 7 (world canceling)
    ≡ comprehensive_rescan node manager 6 (world canceling).db 1 (world canceling)
comprehensive_rescan-fuel_example =
    comprehensive_rescan-fuel node manager 6 121 8 ((λ n. refl), (λ n. refl)) (world canceling).db 6
      (world canceling)
