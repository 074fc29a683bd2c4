-- ===== src/Api/Broadcast/Guarded.antt =====
-- src/daemon/jsonrpc/api.rs: `revault` sends the final Cancel of a vault that has an Unvault, and
-- nothing else, and `emergency` sends the Emergency of every vault that has one.
use revaultd.Prelude.{◌≡◌, ◌⊎◌, inl, inr, arith, true, some, [], ◌∷◌, Option-cases, Bool-cases}
use revaultd.Database.Schema.{OutPoint, Psbt, DbVault, DbTransaction, cancel}
use revaultd.Database.Interface.{presigned_tx, db_vault_by_deposit, db_cancel_transaction}
use revaultd.Control.Signatures.{Secp}
use revaultd.Control.Session.{broadcast, Session, Net}
use revaultd.Control.Coordinator.{Txs, bitcoind_broadcast}
use revaultd.Api.Broadcast.{is_revaultable, revault}

module _ (secp : Secp) (servers : Net) (txs : Txs) where
  abbrev pub IsCanceling : OutPoint → Session → Session → Type 0
  IsCanceling outpoint s s' =
      (vault : DbVault) × (row : DbTransaction) × (final : Psbt) × (db_vault_by_deposit s.db
          outpoint
        ≡ some vault)
      × (is_revaultable vault.status ≡ true)
      × (presigned_tx s.db vault.id cancel ≡ some row)
      × (txs.finalize row.psbt ≡ some final)
      × (s' ≡ record s { log = broadcast (final ∷ []) ∷ s.log })

  -- `revault` leaves the database and sends nothing, or else there is a vault at the outpoint that is
  -- 'unvaulting', 'unvaulted' or 'spending', its Cancel transaction of the database could be
  -- finalized, and the final transaction is the only message that is sent.
  pub revault-guarded :
      (outpoint : OutPoint) (s : Session)
      → ((revault secp servers txs outpoint s).1 ≡ s)
        ⊎ IsCanceling outpoint s (revault secp servers txs outpoint s).1
  unfolding revault bitcoind_broadcast db_cancel_transaction
  revault-guarded outpoint s = elim (Option-cases (db_vault_by_deposit s.db outpoint)) [
    | inl e ↦ inl (ground (arith, e))
    | inr (vault, e) ↦ elim (Bool-cases (is_revaultable vault.status)) [
      | inr e' ↦ inl (ground (arith, e, e'))
      | inl e' ↦ elim (Option-cases (presigned_tx s.db vault.id cancel)) [
        | inl e2 ↦ inl (ground (arith, e, e', e2))
        | inr (row, e2) ↦ elim (Option-cases (txs.finalize row.psbt)) [
          | inl e3 ↦ inl (ground (arith, e, e', e2, e3))
          | inr (final, e3) ↦ inr (vault, row, final, e, e', e2, e3, ground (arith, e, e', e2, e3))
        ]
      ]
    ]
  ]
