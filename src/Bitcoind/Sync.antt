-- ===== src/Bitcoind/Sync.antt =====
-- src/daemon/bitcoind/interface.rs: `sync_chainstate`, the comparison of a cache with the answer of
-- `listunspent`. A field of an entry that is absent or not of its type is `none`.
pub mod Classes
use revaultd.Prelude.{
  ℕ, Bool, true, false, not, Option, none, some, List, [], ◌∷◌, ◌==◌, ◌&&◌, ◌+◌, ◌*◌, ◌/◌, leb,
  if◌then◌else◌, ok, ok_or, ◌>>=◌,
}
use revaultd.Fault.{Res, custom, api_break}
use revaultd.Database.Schema.{OutPoint}
use revaultd.Cache.{UtxoInfo, Cache, get, insert, remove}

pub record JsonUtxo : Type 0 where
  pub label : Option ℕ
  pub confirmations : Option ℕ
  pub outpoint : Option OutPoint
  pub address : Option ℕ  -- its scriptPubKey
  pub amount : Option ℕ  -- in satoshis

pub record OnchainDescriptorState : Type 0 where
  pub new_unconf : Cache
  pub new_conf : Cache
  pub new_spent : Cache

abbrev pub has_label : ℕ → Option ℕ → Bool
has_label l none = false
has_label l (some m) = m == l

-- What is done with an entry, by what `spent_utxos.remove(&outpoint)` returns.
unfoldable pub classify :
    ℕ
    → OutPoint
    → ℕ
    → JsonUtxo
    → Option UtxoInfo
    → OnchainDescriptorState
    → Res OnchainDescriptorState
classify min_conf o confirmations utxo (some info) s =
    let s' = record s { new_spent = remove o s.new_spent } in
    ok (
      if not info.is_confirmed && leb min_conf confirmations
      then record s' { new_conf = insert o info s.new_conf }
      else s')
classify min_conf o confirmations utxo none s = do
  script_pubkey ← ok_or (custom api_break) utxo.address
  value ← ok_or (custom api_break) utxo.amount
  ok (record s {
    new_unconf =
        insert o (record { value = value; script_pubkey = script_pubkey; is_confirmed = false })
          s.new_unconf;
  })

-- The body of the loop for an entry with the label.
unfoldable pub sync_entry : ℕ → JsonUtxo → OnchainDescriptorState → Res OnchainDescriptorState
unfolding classify
sync_entry min_conf utxo s = do
  confirmations ← ok_or (custom api_break) utxo.confirmations
  outpoint ← ok_or (custom api_break) utxo.outpoint
  classify min_conf outpoint confirmations utxo (get s.new_spent outpoint) s

unfoldable pub sync_loop :
    ℕ → ℕ → List JsonUtxo → OnchainDescriptorState → Res OnchainDescriptorState
sync_loop label min_conf [] s = ok s
sync_loop label min_conf (utxo ∷ utxos) s = do
  s' ← if has_label label utxo.label then sync_entry min_conf utxo s else ok s
  sync_loop label min_conf utxos s'

-- `utxos` is what `listunspent` answered.
unfoldable pub sync_chainstate : Cache → ℕ → ℕ → List JsonUtxo → Res OnchainDescriptorState
unfolding sync_loop sync_entry
sync_chainstate current_utxos label min_conf utxos =
    sync_loop label min_conf utxos
      (record { new_unconf = []; new_conf = []; new_spent = current_utxos })

-- The labels of the wallet.
abbrev pub deposit_utxos_label : ℕ
deposit_utxos_label = 0

abbrev pub unvault_utxos_label : ℕ
unvault_utxos_label = 1

-- The constant `MIN_DEPOSIT_VALUE`, of two constants of revault_tx.
unfoldable pub min_deposit_value : ℕ → ℕ → ℕ
min_deposit_value dust_limit unvault_cpfp_value = (dust_limit + unvault_cpfp_value) * 105 / 100

-- `listunspent` with the minimum amount of a deposit, and without.
unfoldable pub sync_deposits :
    (ℕ → Res (List JsonUtxo)) → ℕ → Cache → ℕ → Res OnchainDescriptorState
unfolding sync_chainstate
sync_deposits listunspent min_amount deposits_utxos min_conf = do
  utxos ← listunspent min_amount
  sync_chainstate deposits_utxos deposit_utxos_label min_conf utxos

unfoldable pub sync_unvaults : Res (List JsonUtxo) → Cache → Res OnchainDescriptorState
unfolding sync_chainstate
sync_unvaults listunspent unvault_utxos = do
  utxos ← listunspent
  sync_chainstate unvault_utxos unvault_utxos_label 1 utxos
