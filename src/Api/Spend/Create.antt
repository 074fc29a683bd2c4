-- ===== src/Api/Spend/Create.antt =====
-- src/daemon/jsonrpc/api.rs: `getspendtx`, which builds a Spend with a change output. Amounts, weights
-- and feerates are `u64` and the build is a release one, in which `+` and `*` wrap.
pub mod Change
use revaultd.Prelude.{
  ℕ, ◌+◌, ◌-◌, ◌*◌, ◌/◌, ◌%◌, ◌^◌, Bool, true, false, not, ltb, leb, Option, none, some, List, [],
  ◌∷◌, ◌++◌, map, Result, ok, err, ok_or, guard, map_err, ◌>>=◌, ◌>>◌, if◌then◌else◌, max,
}
use revaultd.Fault.{Res}
use revaultd.Status.{VaultStatus, active, status_eq}
use revaultd.Database.Schema.{OutPoint, SpendPsbt, DbVault, Db}
use revaultd.Database.Interface.{db_vault_by_deposit}
use revaultd.Control.Session.{
  Refusal, feerate_too_low, feerate_too_high, unknown_outpoint, invalid_status, building_spend,
  spend_too_large, aborted,
}
use revaultd.Control.Coordinator.{Txs, check_spend_transaction_size}
use revaultd.Api.Role.{UserRole, manager_only}

pub data SpendTxOut : Type 0 where
  -- an address and a value
  destination : ℕ → ℕ → SpendTxOut
  -- a value, and the derivation index of the deposit address
  change : ℕ → ℕ → SpendTxOut

-- A Spend that the library built.
pub record BuiltSpend : Type 0 where
  pub psbt : SpendPsbt
  pub max_feerate : ℕ  -- for a weight unit
  pub max_weight : ℕ
  pub fees : ℕ

abbrev pub DepositTxIns : Type 0
DepositTxIns = List (OutPoint × ℕ × ℕ)

abbrev pub wrap : ℕ → ℕ
wrap n = n % 2 ^ 64

-- `checked_add`, `checked_mul` and `checked_sub`
abbrev pub checked : ℕ → Option ℕ
checked n = if ltb n (2 ^ 64) then some n else none

abbrev pub checked_sub : ℕ → ℕ → Option ℕ
checked_sub a b = if leb b a then some (a - b) else none

abbrev pub p2wsh_txo_weight : ℕ
p2wsh_txo_weight = 43 * 4

-- The overhead incurred to the CPFP output by the change output.
abbrev pub cpfp_overhead : ℕ
cpfp_overhead = 16 * p2wsh_txo_weight

-- The inputs, and the highest derivation index of the vaults.
unfoldable pub deposit_txins : Db → List OutPoint → ℕ → Result Refusal (DepositTxIns × ℕ)
deposit_txins db [] change_index = ok ([], change_index)
deposit_txins db (outpoint ∷ outpoints) change_index = do
  vault ← ok_or (unknown_outpoint outpoint) (db_vault_by_deposit db outpoint)
  guard (invalid_status vault.status active) (status_eq vault.status active)
  rest ←
      deposit_txins db outpoints
        (if ltb change_index vault.derivation_index then vault.derivation_index else change_index)
  ok ((outpoint, vault.amount, vault.derivation_index) ∷ rest.0, rest.1)

-- `nochange_feerate_vb * 10 < feerate_vb * 9`
abbrev pub is_much_lower : ℕ → ℕ → Bool
is_much_lower nochange_feerate_vb feerate_vb =
    ltb (wrap (nochange_feerate_vb * 10)) (wrap (feerate_vb * 9))

-- `map(|vbyte| vbyte.checked_div(4).unwrap())`
abbrev pub fees_of : Option ℕ → Option ℕ
fees_of none = none
fees_of (some vbyte) = some (vbyte / 4)

-- The fees that are wanted with a change output. Only the last division rounds: the 3 is added to
-- the feerate of a virtual byte before it is multiplied by the weight.
abbrev pub want_fees : ℕ → ℕ → Option ℕ
want_fees with_change_weight feerate_vb =
    fees_of (checked (with_change_weight * wrap (feerate_vb + 3)))

abbrev pub change_above : ℕ → Option ℕ → Option ℕ
change_above dust_limit none = none
change_above dust_limit (some change_value) =
    if ltb (wrap (dust_limit + cpfp_overhead)) change_value
    then some (change_value - cpfp_overhead)
    else none

abbrev pub change_from : ℕ → ℕ → Option ℕ → Option ℕ
change_from dust_limit cur_fees none = none
change_from dust_limit cur_fees (some fees) = change_above dust_limit (checked_sub cur_fees fees)

-- The value of the change output, if there is one.
unfoldable pub change_of : ℕ → ℕ → ℕ → ℕ → Option ℕ
change_of dust_limit with_change_weight cur_fees feerate_vb =
    change_from dust_limit cur_fees (want_fees with_change_weight feerate_vb)

abbrev pub with_change : ℕ → List SpendTxOut → Option ℕ → List SpendTxOut
with_change change_index txos none = txos
with_change change_index txos (some value) = txos ++ change value change_index ∷ []

module _ (spend_tx_from_deposits : DepositTxIns → List SpendTxOut → Bool → Res BuiltSpend)
    (dust_limit : ℕ) (txs : Txs) where
  -- From the Spend without change to the outputs of the one with it.
  unfoldable pub final_txos :
      BuiltSpend → List SpendTxOut → ℕ → ℕ → Result Refusal (List SpendTxOut)
  unfolding change_of
  final_txos nochange_tx txos change_index feerate_vb = do
    nochange_feerate_vb ← ok_or aborted (checked (nochange_tx.max_feerate * 4))
    guard feerate_too_high (not (is_much_lower nochange_feerate_vb feerate_vb))
    with_change_weight ← ok_or aborted (checked (nochange_tx.max_weight + p2wsh_txo_weight))
    ok (
        with_change change_index txos
          (change_of dust_limit with_change_weight nochange_tx.fees feerate_vb))

  unfoldable pub getspendtx :
      UserRole → List OutPoint → List (ℕ × ℕ) → ℕ → Db → Result Refusal SpendPsbt
  unfolding manager_only deposit_txins final_txos check_spend_transaction_size
  getspendtx role outpoints destinations feerate_vb db = do
    manager_only role
    guard feerate_too_low (not (ltb feerate_vb 1))
    inputs ← deposit_txins db outpoints 0
    let txos = map (λ (d : ℕ × ℕ). destination d.0 d.1) destinations
    nochange_tx ← map_err building_spend (spend_tx_from_deposits inputs.0 txos false)
    txos' ← final_txos nochange_tx txos inputs.1 feerate_vb
    tx_res ← map_err building_spend (spend_tx_from_deposits inputs.0 txos' true)
    guard spend_too_large (check_spend_transaction_size txs tx_res.psbt)
    ok tx_res.psbt
