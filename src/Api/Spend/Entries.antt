-- ===== src/Api/Spend/Entries.antt =====
-- src/daemon/jsonrpc/api.rs: `listspendtxs`, which tells of each Spend the deposits of its inputs and which
-- outputs are for the CPFP and for the change.
use mathlib.Core.Option
use revaultd.Prelude.{
  ℕ, zero, suc, max, Bool, true, false, Option, none, some, List, [], ◌∷◌, ◌==◌, exists, map,
  if◌then◌else◌, Result, ok, ok_or, map_err, ◌>>=◌, ◌>>◌,
}
use revaultd.Fault.{Res}
use revaultd.Database.Schema.{Txid, OutPoint, Psbt, SpendPsbt, DbVault, Db}
use revaultd.Database.Queries.{SpendEntry, db_list_spends, db_vaults_from_spend}
use revaultd.Control.Session.{Refusal, aborted, from_fault}
use revaultd.Api.Role.{UserRole, manager_only}

pub data ListSpendStatus : Type 0 where
  non_final pending broadcasted : ListSpendStatus

pub record ListSpendEntry : Type 0 where
  pub psbt : SpendPsbt
  pub deposit_outpoints : List OutPoint
  pub cpfp_index : ℕ
  pub change_index : Option ℕ

abbrev pub spend_status : Option Bool → ListSpendStatus
spend_status (some true) = broadcasted
spend_status (some false) = pending
spend_status none = non_final

abbrev pub spend_status_eq : ListSpendStatus → ListSpendStatus → Bool
spend_status_eq non_final non_final = true
spend_status_eq pending pending = true
spend_status_eq broadcasted broadcasted = true
spend_status_eq _ _ = false

abbrev pub is_wanted : Option (List ListSpendStatus) → Option Bool → Bool
is_wanted none b = true
is_wanted (some statuses) b = exists (λ s. spend_status_eq s (spend_status b)) statuses

-- `iter().position(|i| i == x)`
unfoldable pub position : ℕ → List ℕ → Option ℕ
position x [] = none
position x (y ∷ ys) = let rest = Option.map suc (position x ys) in if y == x then some 0 else rest

-- `v[i] = x`, which panics out of bounds
unfoldable pub set_at {ℓ} : {A : Type ℓ} → ℕ → A → List A → Option (List A)
set_at i x [] = none
set_at zero x (y ∷ ys) = some (x ∷ ys)
set_at (suc i) x (y ∷ ys) = Option.map (λ zs. y ∷ zs) (set_at i x ys)

-- The last index whose script is that of the deposit address.
unfoldable pub last_position : ℕ → List ℕ → Option ℕ
last_position x [] = none
last_position x (y ∷ ys) = elim (last_position x ys) [
  | some i ↦ some (suc i)
  | none ↦ if y == x then some 0 else none
]

unfoldable pub max_index : List DbVault → Option ℕ
max_index [] = none
max_index (v ∷ vs) = elim (max_index vs) [
  | none ↦ some v.derivation_index
  | some i ↦ some (max v.derivation_index i)
]

-- The library derives the Unvault of a deposit and the scripts at an index, and has the scripts of the
-- outputs of a Spend.
module _ (unvault_tx : OutPoint → ℕ → ℕ → Res Psbt) (cpfp_script deposit_script : ℕ → ℕ)
    (outputs : SpendPsbt → List ℕ) where
  -- The outpoint of each vault goes to the place of its input.
  unfoldable pub place : SpendPsbt → List DbVault → List OutPoint → Result Refusal (List OutPoint)
  unfolding position set_at
  place psbt [] outpoints = ok outpoints
  place psbt (v ∷ vs) outpoints = do
    unvault ← map_err from_fault (unvault_tx v.deposit_outpoint v.amount v.derivation_index)
    i ← ok_or aborted (position unvault.txid psbt.unvault_txids)
    placed ← ok_or aborted (set_at i v.deposit_outpoint outpoints)
    place psbt vs placed

  unfoldable pub list_entry :
      SpendPsbt → List OutPoint → List DbVault → Result Refusal ListSpendEntry
  unfolding place max_index position last_position
  list_entry psbt outpoints vaults = do
    placed ← place psbt vaults outpoints
    index ← ok_or aborted (max_index vaults)
    cpfp_index ← ok_or aborted (position (cpfp_script index) (outputs psbt))
    ok (record {
      psbt = psbt;
      deposit_outpoints = placed;
      cpfp_index = cpfp_index;
      change_index = last_position (deposit_script index) (outputs psbt);
    })

  unfoldable pub list_entries :
      Db
      → Option (List ListSpendStatus)
      → List (Txid × SpendEntry)
      → Result Refusal (List ListSpendEntry)
  unfolding list_entry db_vaults_from_spend exists
  list_entries db statuses [] = ok []
  list_entries db statuses ((_, (stx, outpoints)) ∷ spends) =
      let rest = list_entries db statuses spends in
      if is_wanted statuses stx.broadcasted
      then (do
        entry ←
            list_entry stx.psbt outpoints
              (map (λ (r : Txid × DbVault). r.1) (db_vaults_from_spend db stx.psbt.txid))
        entries ← rest
        ok (entry ∷ entries))
      else rest

  unfoldable pub listspendtxs :
      UserRole → Option (List ListSpendStatus) → Db → Result Refusal (List ListSpendEntry)
  unfolding manager_only db_list_spends list_entries
  listspendtxs role statuses db = do manager_only role; list_entries db statuses (db_list_spends db)
