-- ===== src/Api/Lists.antt =====
-- src/daemon/jsonrpc/api.rs: the commands that list vaults and their transactions. The answer is the
-- list, without its JSON.
use Prim.Native.String.{String}
use revaultd.Prelude.{
  ℕ, Option, none, some, List, [], ◌∷◌, Result, ok, map_err, guard, ◌>>=◌, ◌>>◌, ok_or, not,
}
use revaultd.Prelude.Stateful.{after}
use revaultd.Fault.{Res}
use revaultd.Status.{VaultStatus, from_str, unconfirmed, funded, status_eq}
use revaultd.Database.Schema.{OutPoint, DbVault, Db}
use revaultd.Database.Interface.{db_vault_by_deposit, db_vaults_min_status}
use revaultd.Control.Signatures.{Secp}
use revaultd.Control.Session.{
  Refusal, not_a_vault_status, invalid_status, unknown_outpoint, unknown_or_unconfirmed, from_fault,
  Net, Daemon, Command,
}
use revaultd.Control.Keys.{is_stakeholder}
use revaultd.Control.Coordinator.{Txs}
use revaultd.Control.Vaults
use revaultd.Control.Vaults.{
  ListVaultsEntry, RpcControlError, VaultPresignedTransactions, listvaults_from_db,
  vaults_from_deposits, presigned_txs,
}
use revaultd.Control.Onchain.{VaultOnchainTransactions, onchain_txs}
use revaultd.Poller.Wallet.{PresignedTxs, Wallet}
use revaultd.Database.Schema.{Psbt}
use revaultd.Api.Role.{UserRole, stakeholder_only}

-- `parse_vault_status!` on each of the texts
unfoldable pub parse_statuses : List String → Result Refusal (List VaultStatus)
parse_statuses [] = ok []
parse_statuses (s ∷ ss) = do
  status ← ok_or not_a_vault_status (from_str s)
  statuses ← parse_statuses ss
  ok (status ∷ statuses)

-- An empty list is no filter.
unfoldable pub status_filter : Option (List String) → Result Refusal (Option (List VaultStatus))
unfolding parse_statuses
status_filter none = ok none
status_filter (some []) = ok none
status_filter (some (s ∷ ss)) = do statuses ← parse_statuses (s ∷ ss); ok (some statuses)

unfoldable pub listvaults :
    (ℕ → ℕ)
    → Option (List String)
    → Option (List OutPoint)
    → Db
    → Result Refusal (List ListVaultsEntry)
unfolding status_filter listvaults_from_db
listvaults vault_address statuses outpoints db = do
  filter ← status_filter statuses
  ok (listvaults_from_db vault_address filter outpoints db)

-- The error of `vaults_from_deposits` becomes an error of the parameters, of which the model keeps the
-- status or else the outpoint.
abbrev pub from_control : RpcControlError → Refusal
from_control (Vaults.invalid_status s _) = invalid_status s s
from_control (Vaults.unknown_outpoint o) = unknown_outpoint o

abbrev pub selected :
    List VaultStatus → List DbVault → Option (List OutPoint) → Db → Result Refusal (List DbVault)
selected invalid others none db = ok others
selected invalid others (some outpoints) db =
    map_err from_control (vaults_from_deposits db outpoints invalid)

unfoldable pub listpresignedtransactions :
    Txs → Daemon → Option (List OutPoint) → Db → Result Refusal (List VaultPresignedTransactions)
unfolding vaults_from_deposits presigned_txs
listpresignedtransactions txs daemon outpoints db = do
  db_vaults ← selected (unconfirmed ∷ []) (db_vaults_min_status db funded) outpoints db
  map_err from_fault (presigned_txs txs (is_stakeholder daemon) db db_vaults)

unfoldable pub listonchaintransactions :
    Secp → Net → Daemon → Option (List OutPoint) → Command (List VaultOnchainTransactions)
unfolding vaults_from_deposits onchain_txs
listonchaintransactions secp servers daemon outpoints s =
    after (selected [] s.db.vaults outpoints s.db, s)
      (onchain_txs secp servers (is_stakeholder daemon))

-- The vault of `getrevocationtxs`, and the transactions that the library derives.
unfoldable pub getrevocationtxs : Wallet → UserRole → OutPoint → Db → Result Refusal PresignedTxs
unfolding stakeholder_only
getrevocationtxs wallet role outpoint db = do
  stakeholder_only role
  vault ← ok_or (unknown_or_unconfirmed outpoint) (db_vault_by_deposit db outpoint)
  guard (unknown_or_unconfirmed outpoint) (not (status_eq vault.status unconfirmed))
  map_err from_fault (wallet.transaction_chain outpoint vault.amount vault.derivation_index)

-- `unvault_tx` is the library's, of an outpoint, an amount and a derivation index.
unfoldable pub getunvaulttx :
    (OutPoint → ℕ → ℕ → Res Psbt) → UserRole → OutPoint → Db → Result Refusal Psbt
unfolding stakeholder_only
getunvaulttx unvault_tx role outpoint db = do
  stakeholder_only role
  vault ← ok_or (unknown_outpoint outpoint) (db_vault_by_deposit db outpoint)
  guard (invalid_status vault.status funded) (not (status_eq vault.status unconfirmed))
  map_err from_fault (unvault_tx outpoint vault.amount vault.derivation_index)
