-- ===== src/Database/Integrity/Marks.antt =====
-- src/daemon/database/actions.rs: the integrity of the tables after a vault got another status.
use revaultd.Prelude.{
  ℕ, ◌≡◌, ◌≢◌, ◌⊎◌, ◌∙◌, refl, Bool, none, update, All-update, All-imp, exists-update, inl, inr,
  Bool-cases, All, true, List, [], ◌∷◌, subst, sym,
}
use revaultd.Status.{VaultStatus, unconfirmed, spending, spent}
use revaultd.Database.Schema.{Txid, DbVault, DbTransaction, Db}
use revaultd.Database.Interface.{has_id}
use revaultd.Database.Marks.{
  with_status, with_spend, has_tx, db_status_from_unvault_txid, db_spend_unvault, db_mark_vault_as,
}
use revaultd.Database.Integrity.{IsSound, SpendsAreKnown}

-- An update that keeps the ids of the vaults, leaves none 'unconfirmed', and gives those that are
-- 'spending' or 'spent' a Spend.
pub update-IsSound :
    (q : DbVault → Bool) (f : DbVault → DbVault) (db : Db)
    → ((v : DbVault) (k : ℕ) → has_id k (f v) ≡ has_id k v)
    → ((v : DbVault) → (f v).status ≢ unconfirmed)
    → ((v : DbVault) → ((f v).status ≡ spending) ⊎ ((f v).status ≡ spent) → (f v).spend_txid ≢ none)
    → IsSound db
    → IsSound (record db { vaults = update q f db.vaults })
update-IsSound q f db hid hu hs s = record {
  txs_have_vault =
      All-imp
        (λ (r : DbTransaction) e.
          exists-update (has_id r.vault_id) q f db.vaults (λ v. hid v r.vault_id) ∙ e)
        db.presigned s.txs_have_vault;
  inputs_have_tx = s.inputs_have_tx;
  inputs_have_spend = s.inputs_have_spend;
  unconfirmed_are_bare =
      All-update _ q f db.vaults (λ v e h u. absurd (hu v u)) s.unconfirmed_are_bare;
  spends_are_known = All-update _ q f db.vaults (λ v e h. hs v) s.spends_are_known;
}

module _ (status : VaultStatus) (hu : status ≢ unconfirmed) (hs : status ≢ spending)
    (hd : status ≢ spent) where
  pub settled : (v : DbVault) → (status ≡ spending) ⊎ (status ≡ spent) → v.spend_txid ≢ none
  settled v (inl e) = absurd (hs e)
  settled v (inr e) = absurd (hd e)

  -- A statement that gives a status other than 'unconfirmed', 'spending' and 'spent' to the vault of
  -- an id or of an Unvault transaction keeps the tables sound, and so does the one that records the
  -- Spend of an Unvault.
  pub db_mark_vault_as-IsSound :
      (db : Db) (vault_id : ℕ) (unvault_txid spend_txid : Txid)
      → IsSound db
      → IsSound (db_mark_vault_as vault_id status db)
        × IsSound (db_status_from_unvault_txid unvault_txid status db)
        × IsSound (db_spend_unvault unvault_txid spend_txid db)
  unfolding db_mark_vault_as db_status_from_unvault_txid db_spend_unvault
  db_mark_vault_as-IsSound db k u t s = (
    update-IsSound (has_id k) (with_status db.now status) db (λ v j. refl) (λ v. hu) settled s,
    update-IsSound (has_tx db.presigned u) (with_status db.now status) db (λ v j. refl) (λ v. hu)
        settled s,
    update-IsSound (has_tx db.presigned u) (with_spend db.now t) db (λ v j. refl) (λ v e. cc)
        (λ v e h. cc) s,
  )

-- Every vault with this id (there is one at most) has the status.
abbrev pub HasStatus : ℕ → VaultStatus → Db → Type 0
HasStatus vault_id status db =
    All (λ (v : DbVault). has_id vault_id v ≡ true → v.status ≡ status) db.vaults

with_status-SpendsAreKnown :
    (now k : ℕ) (old new : VaultStatus) (vs : List DbVault)
    → (old ≡ spending) ⊎ (old ≡ spent)
    → All (λ (v : DbVault). has_id k v ≡ true → v.status ≡ old) vs
    → SpendsAreKnown vs
    → SpendsAreKnown (update (has_id k) (with_status now new) vs)
unfolding update
with_status-SpendsAreKnown now k old new [] o hs known = tt
with_status-SpendsAreKnown now k old new (v ∷ vs) o (h, hs) (known, rest) =
    elim (Bool-cases (has_id k v)) [
      | inl e ↦ rw e (
        λ _. known (subst (λ st. (st ≡ spending) ⊎ (st ≡ spent)) (sym (h e)) o),
        with_status-SpendsAreKnown now k old new vs o hs rest,
      )
      | inr e ↦ rw e (known, with_status-SpendsAreKnown now k old new vs o hs rest)
    ]

-- A vault that goes from 'spending' to 'spent', or back, keeps its Spend.
pub settles-IsSound :
    (k : ℕ) (old new : VaultStatus) (db : Db)
    → (old ≡ spending) ⊎ (old ≡ spent)
    → new ≢ unconfirmed
    → HasStatus k old db
    → IsSound db
    → IsSound (db_mark_vault_as k new db)
unfolding db_mark_vault_as
settles-IsSound k old new db o hu hs s = record {
  txs_have_vault =
      All-imp
        (λ (r : DbTransaction) e.
          exists-update (has_id r.vault_id) (has_id k) (with_status db.now new) db.vaults
            (λ v. refl)
          ∙ e)
        db.presigned s.txs_have_vault;
  inputs_have_tx = s.inputs_have_tx;
  inputs_have_spend = s.inputs_have_spend;
  unconfirmed_are_bare =
      All-update _ (has_id k) (with_status db.now new) db.vaults (λ v e h u. absurd (hu u))
        s.unconfirmed_are_bare;
  spends_are_known = with_status-SpendsAreKnown db.now k old new db.vaults o hs s.spends_are_known;
}
