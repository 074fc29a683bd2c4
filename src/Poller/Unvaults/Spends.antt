-- ===== src/Poller/Unvaults/Spends.antt =====
-- src/daemon/bitcoind/poller.rs: when `unvault_spender` says that an Unvault was spent by a Spend.
use revaultd.Prelude.{
  ℕ, ◌≡◌, ◌≢◌, ap, subst, ◌∙◌, refl, sym, Bool, true, false, Option, none, some, List, ◌==◌, ◌||◌,
  arith, ok, ok_or, Bool-cases, inl, inr,
}
use revaultd.Fault.{Res, custom, no_vault_for_spent_unvault}
use revaultd.Database.Schema.{Txid, OutPoint, BlockchainTip, DbVault, DbTransaction, Db}
use revaultd.Database.Interface.{db_vault_by_unvault_txid}
use revaultd.Bitcoind.Run.{World, ◌>>=◌, return, lift, else_of, after-eq-ok}
use revaultd.Bitcoind.Json.{JsonEntry}
use revaultd.Bitcoind.Client.{Rpc, is_current, get_spender_txid}
use revaultd.Bitcoind.Client.Spender.{Found, get_spender_txid-Answers}
use revaultd.Poller.Wallet.{Wallet, cancel_txid, unemer_txid}
use revaultd.Poller.Unvaults.{
  UnvaultSpender, spend, is_some_txid, is_current_if, emergency_of, spend_of, spend_if,
  search_spend, unless_canceled, unvault_spender,
}

-- bitcoind confirmed that the transaction is in the chain or the mempool.
abbrev pub WasCurrent : Rpc → Txid → Type 0
WasCurrent rpc t = (v : World) × (v' : World) × (is_current rpc t v ≡ (ok true, v'))

-- The transaction is one of the wallet's that bitcoind listed since the block, and spends the
-- outpoint.
abbrev pub WasFound : Rpc → OutPoint → ℕ → Txid → Type 0
WasFound rpc o block_hash t =
    (n : ℕ) × (es : List JsonEntry) × (rpc.listsinceblock n block_hash ≡ ok (some es))
    × Found rpc o t es

spend_if-Spend :
    (rpc : Rpc) (wallet : Wallet) (s t : Txid) (b : Bool) (w w' : World)
    → spend_if rpc wallet s b w ≡ (ok (some (spend t)), w')
    → (s ≡ t) × (b ≡ true)
spend_if-Spend rpc wallet s t true w w' h = (ground arith, refl)
spend_if-Spend rpc wallet s t false w w' h = absurd (ground arith)

spend_of-Spend :
    (rpc : Rpc) (wallet : Wallet) (c t : Txid) (u a : Option Txid) (w w' : World)
    → spend_of rpc wallet c u a w ≡ (ok (some (spend t)), w')
    → (a ≡ some t) × (t ≢ c) × (u ≢ some t) × WasCurrent rpc t
unfolding spend_of
spend_of-Spend rpc wallet c t u none w w' h = absurd (ground arith)
spend_of-Spend rpc wallet c t u (some s) w w' h = elim (Bool-cases (s == c || is_some_txid s u)) [
  | inl e ↦ absurd (ground arith)
  | inr e ↦
      let (b, e1, h1) =
        after-eq-ok (is_current rpc s w) (spend_if rpc wallet s) {b = some (spend t)} {w' = w'} (
          else_of (s == c || is_some_txid s u) (return none)
            (is_current rpc s >>= spend_if rpc wallet s) w e h) in
      let (same, current) = spend_if-Spend rpc wallet s t b (is_current rpc s w).1 w' h1 in
      (
        ap some same,
        ground arith,
        ground arith,
        subst (WasCurrent rpc) same
            (w, (is_current rpc s w).1, ap (λ r. (r, (is_current rpc s w).1)) (e1 ∙ ap ok current)),
      )
]

search_spend-Spend :
    (rpc : Rpc) (wallet : Wallet) (tip : BlockchainTip) (o : OutPoint) (c t : Txid)
    (u : Option Txid) (b : Bool) (w w' : World)
    → search_spend rpc wallet tip o c u b w ≡ (ok (some (spend t)), w')
    → (t ≢ c) × (u ≢ some t) × WasCurrent rpc t × WasFound rpc o tip.hash t
unfolding search_spend
search_spend-Spend rpc wallet tip o c t u true w w' h = absurd (not_spend u (ap (λ p. p.0) h))
  where
    not_spend :
        (u : Option Txid)
        → ◌≢◌ {A = Res (Option UnvaultSpender)}
            (ok (emergency_of rpc wallet u))
            (ok (some (spend t)))
    not_spend none e = cc
    not_spend (some v) e = cc
search_spend-Spend rpc wallet tip o c t u false w w' h =
    let (a, e1, h1) =
      after-eq-ok (get_spender_txid rpc o tip.hash w) (spend_of rpc wallet c u) {b = some (spend t)}
        {w' = w'} h in
    let (found, nc, nu, current) =
      spend_of-Spend rpc wallet c t u a (get_spender_txid rpc o tip.hash w).1 w' h1 in
    let (es, listed, answers) =
      get_spender_txid-Answers rpc o tip.hash w (get_spender_txid rpc o tip.hash w).1 {a = some t}
        (ap (λ r. (r, (get_spender_txid rpc o tip.hash w).1)) (e1 ∙ ap ok found)) in
    (nc, nu, current, (w.requests, es, listed, answers))

unless_canceled-Spend :
    (rpc : Rpc) (wallet : Wallet) (tip : BlockchainTip) (o : OutPoint) (v : DbVault) (db : Db)
    (c t : Txid) (b : Bool) (w w' : World)
    → unless_canceled rpc wallet tip o v db c b w ≡ (ok (some (spend t)), w')
    → (t ≢ c)
      × (unemer_txid wallet v db ≢ ok (some t))
      × WasCurrent rpc t
      × WasFound rpc o tip.hash t
unfolding unless_canceled
unless_canceled-Spend rpc wallet tip o v db c t true w w' h = absurd (ground arith)
unless_canceled-Spend rpc wallet tip o v db c t false w w' h =
    let (u, e1, h1) =
      after-eq-ok (unemer_txid wallet v db, w)
        (λ u. is_current_if rpc wallet u >>= search_spend rpc wallet tip o c u) {b = some (spend t)}
        {w' = w'} h in
    let (b, e2, h2) =
      after-eq-ok (is_current_if rpc wallet u w) (search_spend rpc wallet tip o c u)
        {b = some (spend t)} {w' = w'} h1 in
    let (nc, nu, current, found) =
      search_spend-Spend rpc wallet tip o c t u b (is_current_if rpc wallet u w).1 w' h2 in
    (nc, λ e. nu (ok_inj (sym e1 ∙ e)), current, found)
  where
    ok_inj : {x y : Option Txid} → ◌≡◌ {A = Res (Option Txid)} (ok x) (ok y) → x ≡ y
    ok_inj e = ground arith

-- When `unvault_spender` answers that a Spend with txid `t` spent the Unvault, the database has the
-- vault of the Unvault, `t` is neither its Cancel nor its UnvaultEmergency, bitcoind listed `t` since
-- the previous tip as an outgoing transaction that spends the Unvault's outpoint, and confirmed that
-- it is current.
pub unvault_spender-Spend :
    (rpc : Rpc) (wallet : Wallet) (previous_tip : BlockchainTip) (o : OutPoint) (t : Txid)
    (w w' : World)
    → unvault_spender rpc wallet previous_tip o w ≡ (ok (some (spend t)), w')
    → (v : DbVault) × (r : DbTransaction) × (db_vault_by_unvault_txid w.db o.txid ≡ some (v, r))
      × (cancel_txid wallet v w.db ≢ ok t)
      × (unemer_txid wallet v w.db ≢ ok (some t))
      × WasCurrent rpc t
      × WasFound rpc o previous_tip.hash t
unfolding unvault_spender
unvault_spender-Spend rpc wallet tip o t w w' h =
    let ((v, r), e1, h1) =
      after-eq-ok
        (ok_or (custom no_vault_for_spent_unvault) (db_vault_by_unvault_txid w.db o.txid), w)
        (λ found. lift (cancel_txid wallet found.0 w.db) >>= λ c.
          is_current rpc c >>= unless_canceled rpc wallet tip o found.0 w.db c)
        {b = some (spend t)} {w' = w'} h in
    let (c, e2, h2) =
      after-eq-ok (cancel_txid wallet v w.db, w)
        (λ c. is_current rpc c >>= unless_canceled rpc wallet tip o v w.db c) {b = some (spend t)}
        {w' = w'} h1 in
    let (b, e3, h3) =
      after-eq-ok (is_current rpc c w) (unless_canceled rpc wallet tip o v w.db c)
        {b = some (spend t)} {w' = w'} h2 in
    let (nc, nu, current, found) =
      unless_canceled-Spend rpc wallet tip o v w.db c t b (is_current rpc c w).1 w' h3 in
    (v, r, ground arith, λ e. nc (ground (arith, e, e2)), nu, current, found)
