-- ===== src/Api/Spend/Store/Active.antt =====
-- src/daemon/jsonrpc/api.rs: `updatespendtx` stores only Spends of active vaults.
use revaultd.Prelude.{
  ◌≡◌, ◌≢◌, sym, ap, subst, arith, true, some, List, [], ◌∷◌, ok, >>=-eq-ok, guard-eq-ok,
  ok_or-eq-ok, guard, ◌>>=◌, ◌>>◌,
}
use revaultd.Prelude.Stateful.{after, return}
use revaultd.Status.{active, status_eq}
use revaultd.Database.Schema.{Txid, SpendPsbt, DbVault, DbTransaction, Db}
use revaultd.Database.Interface.{db_vault_by_unvault_txid}
use revaultd.Control.Session.{unknown_unvault, invalid_status, Session, exec}
use revaultd.Control.Session.Steps.{lift-after, exec-after}
use revaultd.Api.Role.{UserRole, stakeholder, manager_only}
use revaultd.Api.Spend.Store.{spent_unvaults, store_spend, update_checks, updatespendtx}

-- The rows are the Unvault transactions with these txids, each of an active vault.
abbrev pub AreOfActiveVaults : Db → List Txid → List DbTransaction → Type 0
AreOfActiveVaults db [] rows = rows ≡ []
AreOfActiveVaults db (txid ∷ txids) rows =
    (vault : DbVault) × (row : DbTransaction) × (rest : List DbTransaction)
    × (db_vault_by_unvault_txid db txid ≡ some (vault, row))
    × (status_eq vault.status active ≡ true)
    × (rows ≡ row ∷ rest)
    × AreOfActiveVaults db txids rest

spent_unvaults-AreOfActiveVaults :
    (db : Db) (txids : List Txid) (rows : List DbTransaction)
    → spent_unvaults db txids ≡ ok rows
    → AreOfActiveVaults db txids rows
unfolding spent_unvaults
spent_unvaults-AreOfActiveVaults db [] rows h = ground (arith, h)
spent_unvaults-AreOfActiveVaults db (txid ∷ txids) rows h =
    let ((vault, row), e, h1) =
      ok_or-eq-ok (unknown_unvault txid) (db_vault_by_unvault_txid db txid)
        (λ found. do
          guard (invalid_status found.0.status active) (status_eq found.0.status active)
          db_unvaults ← spent_unvaults db txids
          ok (found.1 ∷ db_unvaults))
        h in
    let (e1, h2) =
      guard-eq-ok (invalid_status vault.status active) (status_eq vault.status active)
        (spent_unvaults db txids >>= (λ db_unvaults. ok (row ∷ db_unvaults))) h1 in
    let (rest, e2, h3) =
      >>=-eq-ok (spent_unvaults db txids) (λ db_unvaults. ok (row ∷ db_unvaults)) h2 in
    (vault, row, rest, e, e1, ground (arith, h3), spent_unvaults-AreOfActiveVaults db txids rest e2)

pub manager_only-ok : (role : UserRole) → manager_only role ≡ ok tt → role ≢ stakeholder
unfolding manager_only
manager_only-ok role h = ground (arith, h)

abbrev pub IsStored : UserRole → SpendPsbt → Session → Session → Type 0
IsStored role spend_tx s s' =
    (rows : List DbTransaction) × (role ≢ stakeholder)
    × AreOfActiveVaults s.db spend_tx.unvault_txids rows
    × (store_spend spend_tx rows s.db ≡ ok s'.db)
    × (s'.log ≡ s.log)

-- If `updatespendtx` returns, the caller is not a stakeholder only, each input of the Spend spends
-- the Unvault of an active vault, no message was sent, and the database is what the update of the
-- Spend leaves, or its insertion with these Unvaults if it was not there.
pub updatespendtx-ok :
    (role : UserRole) (spend_tx : SpendPsbt) (s s' : Session)
    → updatespendtx role spend_tx s ≡ (ok tt, s')
    → IsStored role spend_tx s s'
unfolding updatespendtx update_checks
updatespendtx-ok role spend_tx s s' h =
    let (rows, e, h1) =
      lift-after (update_checks role spend_tx s.db) s (λ rows. exec (store_spend spend_tx rows))
        h in
    let (u, e1, e2) =
      >>=-eq-ok (manager_only role) (λ _. spent_unvaults s.db spend_tx.unvault_txids) e in
    let (db, e3, h2) =
      exec-after (store_spend spend_tx rows) s return (ap (λ p. after p return) h1) in
    (
      rows,
      manager_only-ok role e1,
      spent_unvaults-AreOfActiveVaults s.db spend_tx.unvault_txids rows e2,
      subst (λ d. store_spend spend_tx rows s.db ≡ ok d) {x = db} {y = s'.db} (ap (λ p. p.1.db) h2)
          e3,
      ap (λ p. p.1.log) (sym h2),
    )
