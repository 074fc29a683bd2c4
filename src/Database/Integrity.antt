-- ===== src/Database/Integrity.antt =====
-- What holds of the tables between two statements: the references between them (the foreign keys of
-- src/daemon/database/schema.rs and the comments beside its tables).
pub mod Marks
pub mod Inserts
pub mod Unconfirmed
pub mod Presigned
pub mod Reachable
use revaultd.Prelude.{ℕ, ◌≡◌, ◌≢◌, ◌⊎◌, Bool, true, false, none, List, ◌==◌, exists, All}
use revaultd.Status.{unconfirmed, spending, spent}
use revaultd.Database.Schema.{DbVault, DbTransaction, DbSpendInput, DbSpendTransaction, Db}
use revaultd.Database.Interface.{has_id}
use revaultd.Database.Presigned.{has_tx_id}
use revaultd.Database.Deposits.{of_vault}

abbrev pub has_spend_id : ℕ → DbSpendTransaction → Bool
has_spend_id spend_id s = s.id == spend_id

-- The vault of a presigned transaction is in the database.
abbrev pub TxsHaveVault : List DbVault → List DbTransaction → Type 0
TxsHaveVault vaults = All (λ (r : DbTransaction). exists (has_id r.vault_id) vaults ≡ true)

-- The Unvault transaction that an input of a Spend names is in the database.
abbrev pub InputsHaveTx : List DbTransaction → List DbSpendInput → Type 0
InputsHaveTx txs = All (λ (i : DbSpendInput). exists (has_tx_id i.unvault_id) txs ≡ true)

-- The Spend that an input is of is in the database.
abbrev pub InputsHaveSpend : List DbSpendTransaction → List DbSpendInput → Type 0
InputsHaveSpend spends = All (λ (i : DbSpendInput). exists (has_spend_id i.spend_id) spends ≡ true)

-- "unconfirmed vaults don't have the Unvault transaction stored in database", nor any other.
abbrev pub UnconfirmedAreBare : List DbTransaction → List DbVault → Type 0
UnconfirmedAreBare txs =
    All (λ (v : DbVault). v.status ≡ unconfirmed → exists (of_vault v.id) txs ≡ false)

-- `spend_txid` "MUST be NOT NULL if status is 'spending' or 'spent'".
abbrev pub SpendsAreKnown : List DbVault → Type 0
SpendsAreKnown =
    All (λ (v : DbVault). (v.status ≡ spending) ⊎ (v.status ≡ spent) → v.spend_txid ≢ none)

pub record IsSound (db : Db) : Type 0 where
  pub txs_have_vault : TxsHaveVault db.vaults db.presigned
  pub inputs_have_tx : InputsHaveTx db.presigned db.spend_inputs
  pub inputs_have_spend : InputsHaveSpend db.spends db.spend_inputs
  pub unconfirmed_are_bare : UnconfirmedAreBare db.presigned db.vaults
  pub spends_are_known : SpendsAreKnown db.vaults
