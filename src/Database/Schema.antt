-- ===== src/Database/Schema.antt =====
-- src/daemon/database/schema.rs: the rows of the tables, and the tables together.
-- Transactions are PSBTs of the library revault_tx; `Psbt` holds what the daemon reads of one. A row's
-- PSBT is of the kind that its `tx_type` says: `RevaultTx` is built from that column.
use revaultd.Prelude.{ℕ, Bool, Option, none, some, List, ◌==◌, ◌&&◌, if◌then◌else◌}
use revaultd.Status.{VaultStatus}
use revaultd.Sigs.{SigMap}

abbrev pub Txid : Type 0
Txid = ℕ

pub record OutPoint : Type 0 where
  pub txid : Txid
  pub vout : ℕ

abbrev pub outpoint_eq : OutPoint → OutPoint → Bool
outpoint_eq a b = a.txid == b.txid && a.vout == b.vout

pub record Psbt : Type 0 where
  pub txid : Txid
  pub wtxid : Txid
  pub inputs : ℕ  -- tx().input.len()
  pub is_finalized : Bool
  pub partial_sigs : SigMap  -- of the input 0

pub record BlockchainTip : Type 0 where
  pub height : ℕ
  pub hash : ℕ

pub data TransactionType : Type 0 where
  unvault cancel emergency unvault_emergency : TransactionType

abbrev pub type_as_u32 : TransactionType → ℕ
type_as_u32 unvault = 0
type_as_u32 cancel = 1
type_as_u32 emergency = 2
type_as_u32 unvault_emergency = 3

unfoldable pub type_try_from : ℕ → Option TransactionType
type_try_from n =
    if n == 0
    then some unvault
    else if n == 1
    then some cancel
    else if n == 2
    then some emergency
    else if n == 3
    then some unvault_emergency
    else none

abbrev pub type_eq : TransactionType → TransactionType → Bool
type_eq a b = type_as_u32 a == type_as_u32 b

pub record DbWallet : Type 0 where
  pub id : ℕ
  pub timestamp : ℕ
  pub deposit_descriptor : ℕ
  pub unvault_descriptor : ℕ
  pub cpfp_descriptor : ℕ
  pub our_man_xpub : Option ℕ
  pub our_stk_xpub : Option ℕ
  pub deposit_derivation_index : ℕ

pub record DbVault : Type 0 where
  pub id : ℕ
  pub wallet_id : ℕ
  pub status : VaultStatus
  pub blockheight : ℕ
  pub deposit_outpoint : OutPoint
  pub amount : ℕ
  pub derivation_index : ℕ
  pub received_at : ℕ
  pub updated_at : ℕ
  pub spend_txid : Option Txid

pub record DbTransaction : Type 0 where
  pub id : ℕ
  pub vault_id : ℕ
  pub tx_type : TransactionType
  pub psbt : Psbt
  pub is_fully_signed : Bool

pub record DbSpendInput : Type 0 where
  pub id : ℕ
  pub unvault_id : ℕ
  pub spend_id : ℕ

-- A Spend spends one Unvault output for each of `unvault_txids`, the txids of its inputs.
pub record SpendPsbt : Type 0 where
  pub txid : Txid
  pub unvault_txids : List Txid
  pub is_finalized : Bool
  pub input_sigs : List SigMap  -- the signatures of each input

pub record DbSpendTransaction : Type 0 where
  pub id : ℕ
  pub psbt : SpendPsbt
  pub broadcasted : Option Bool

-- The row of the table "tip".
pub record TipRow : Type 0 where
  pub network : ℕ
  pub tip : BlockchainTip

-- The database, and the reading that `strftime('%s','now')` gives.
pub record Db : Type 0 where
  pub now : ℕ
  pub version : List ℕ
  pub tips : List TipRow
  pub wallets : List DbWallet
  pub vaults : List DbVault
  pub presigned : List DbTransaction
  pub spend_inputs : List DbSpendInput
  pub spends : List DbSpendTransaction
