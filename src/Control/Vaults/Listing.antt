-- ===== src/Control/Vaults/Listing.antt =====
-- src/daemon/control.rs: which vaults the lists have.
use revaultd.Prelude.{
  ◌≡◌, ◌↔◌, refl, arith, ℕ, Bool, false, not, ◌&&◌, Option, some, List, [], ◌∷◌, map, exists,
  select, ok, guard, >>=-eq-ok, guard-eq-ok, ok_or-eq-ok, ◌>>=◌, ◌>>◌,
}
use revaultd.Status.{VaultStatus, status_eq}
use revaultd.Database.Schema.{OutPoint, outpoint_eq, DbVault, Db}
use revaultd.Database.Interface.{db_vault_by_deposit}
use revaultd.Control.Vaults.{
  passes, entry_of, listed_vaults, listvaults_from_db, invalid_status, unknown_outpoint,
  vaults_from_deposits,
}

-- The vault has one of the statuses and one of the outpoints, of those filters that are given.
abbrev pub is_listed : Option (List VaultStatus) → Option (List OutPoint) → DbVault → Bool
is_listed statuses outpoints v =
    passes status_eq statuses v.status && passes outpoint_eq outpoints v.deposit_outpoint

listed_vaults-select :
    (vault_address : ℕ → ℕ) (statuses : Option (List VaultStatus))
    (outpoints : Option (List OutPoint)) (vaults : List DbVault)
    → listed_vaults vault_address statuses outpoints vaults
      ≡ map (entry_of vault_address) (select (is_listed statuses outpoints) vaults)
unfolding listed_vaults select
listed_vaults-select vault_address statuses outpoints [] = refl
listed_vaults-select vault_address statuses outpoints (v ∷ vs) =
    ground (arith, listed_vaults-select vault_address statuses outpoints vs)

-- `listvaults_from_db` gives the entries of the vaults that both filters let through, in the order of
-- the table, where a filter that is not given lets every vault through.
pub listvaults_from_db-select :
    (vault_address : ℕ → ℕ) (statuses : Option (List VaultStatus))
    (outpoints : Option (List OutPoint)) (db : Db)
    → listvaults_from_db vault_address statuses outpoints db
      ≡ map (entry_of vault_address) (select (is_listed statuses outpoints) db.vaults)
unfolding listvaults_from_db
listvaults_from_db-select vault_address statuses outpoints db =
    listed_vaults-select vault_address statuses outpoints db.vaults

-- The vaults are those at the outpoints, in this order, and none has one of the statuses.
abbrev pub AreVaultsAt : Db → List VaultStatus → List OutPoint → List DbVault → Type 0
AreVaultsAt db invalid [] vaults = vaults ≡ []
AreVaultsAt db invalid (o ∷ os) vaults =
    (vault : DbVault) × (rest : List DbVault) × (db_vault_by_deposit db o ≡ some vault)
    × (exists (λ s. status_eq s vault.status) invalid ≡ false)
    × (vaults ≡ vault ∷ rest)
    × AreVaultsAt db invalid os rest

-- `vaults_from_deposits` gives some vaults exactly if they are the vaults at the outpoints, in this
-- order, and none of them has an invalid status.
pub vaults_from_deposits-AreVaultsAt :
    (db : Db) (invalid : List VaultStatus) (outpoints : List OutPoint) (vaults : List DbVault)
    → (vaults_from_deposits db outpoints invalid ≡ ok vaults)
      ↔ AreVaultsAt db invalid outpoints vaults
unfolding vaults_from_deposits
vaults_from_deposits-AreVaultsAt db invalid [] vaults = ground arith
vaults_from_deposits-AreVaultsAt db invalid (o ∷ os) vaults = (
  (λ h.
      let (vault, e, h1) =
        ok_or-eq-ok (unknown_outpoint o) (db_vault_by_deposit db o)
          (λ vault. do
            guard (invalid_status vault.status o)
                (not (exists (λ s. status_eq s vault.status) invalid))
            vaults ← vaults_from_deposits db os invalid
            ok (vault ∷ vaults))
          h in
      let (e1, h2) =
        guard-eq-ok (invalid_status vault.status o)
          (not (exists (λ s. status_eq s vault.status) invalid))
          (vaults_from_deposits db os invalid >>= (λ vaults. ok (vault ∷ vaults))) h1 in
      let (rest, e2, h3) =
        >>=-eq-ok (vaults_from_deposits db os invalid) (λ vaults. ok (vault ∷ vaults)) h2 in
      (
        vault,
        rest,
        e,
        ground (arith, e1),
        ground (arith, h3),
        (vaults_from_deposits-AreVaultsAt db invalid os rest).0 e2,
      )),
  (λ (vault, rest, e, e1, e2, h).
      ground (arith, e, e1, e2, (vaults_from_deposits-AreVaultsAt db invalid os rest).1 h)),
)
