-- ===== src/Control/Keys/Managers.antt =====
-- src/daemon/revaultd.rs: who counts as a manager.
use revaultd.Prelude.{
  ℕ, ◌≡◌, ◌↔◌, Bool, true, false, List, [], ◌∷◌, ◌==◌, arith, exists, ap, ==_iff, if◌then◌else◌,
}
use revaultd.Control.Session.{Daemon}
use revaultd.Control.Keys.{contains, only_managers, managers_xpubs}

-- The key is among those of the Unvault descriptor that are not plain ones.
unfoldable pub is_extended : List (ℕ × Bool) → ℕ → Bool
is_extended [] k = false
is_extended ((xpub, is_single) ∷ keys) k =
    if is_single then is_extended keys k else if xpub == k then true else is_extended keys k

contains-eq : (keys : List ℕ) (j k : ℕ) → (j == k) ≡ true → contains keys j ≡ contains keys k
contains-eq keys j k h = ap (contains keys) ((==_iff j k).0 h)

only_managers-contains :
    (stk : List ℕ) (keys : List (ℕ × Bool)) (k : ℕ)
    → (contains (only_managers stk keys) k ≡ true)
      ↔ ((is_extended keys k ≡ true) × (contains stk k ≡ false))
unfolding contains only_managers is_extended exists
only_managers-contains stk [] k = ground arith
only_managers-contains stk ((xpub, true) ∷ keys) k = only_managers-contains stk keys k
only_managers-contains stk ((xpub, false) ∷ keys) k =
    ground (arith, only_managers-contains stk keys k, contains-eq stk xpub k)

-- The managers are exactly the keys of the Unvault descriptor that are extended ones, and not plain
-- ones of cosigning servers, and that are not keys of the deposit descriptor.
pub managers_xpubs-contains :
    (daemon : Daemon) (k : ℕ)
    → (contains (managers_xpubs daemon) k ≡ true)
      ↔ ((is_extended daemon.unvault_keys k ≡ true) × (contains daemon.deposit_xpubs k ≡ false))
unfolding managers_xpubs
managers_xpubs-contains daemon k = only_managers-contains daemon.deposit_xpubs daemon.unvault_keys k
