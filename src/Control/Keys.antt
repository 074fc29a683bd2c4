-- ===== src/Control/Keys.antt =====
-- src/daemon/revaultd.rs: the keys of the participants, the role of the daemon and the range of the
-- addresses that it watches.
pub mod Managers
use revaultd.Prelude.{
  ℕ, ◌+◌, ◌%◌, ◌^◌, Bool, true, false, not, Option, none, some, List, [], ◌∷◌, ◌==◌, exists, length,
  map, if◌then◌else◌,
}
use revaultd.Sigs.{PubKey}
use revaultd.Control.Signatures.{Secp}
use revaultd.Control.Session.{Daemon}

abbrev pub is_given : Option ℕ → Bool
is_given none = false
is_given (some _) = true

abbrev pub is_stakeholder : Daemon → Bool
is_stakeholder daemon = is_given daemon.our_stk_xpub

abbrev pub is_manager : Daemon → Bool
is_manager daemon = is_given daemon.our_man_xpub

-- `keys.contains(&key)`
unfoldable pub contains : List ℕ → ℕ → Bool
contains keys k = exists (λ j. j == k) keys

abbrev pub stakeholders_xpubs_at : Secp → Daemon → ℕ → List PubKey
stakeholders_xpubs_at secp daemon index = map (λ xpub. secp.derive xpub index) daemon.deposit_xpubs

abbrev pub our_stk_xpub_at : Secp → Daemon → ℕ → Option PubKey
our_stk_xpub_at secp daemon index = elim daemon.our_stk_xpub [
  | none ↦ none
  | some xpub ↦ some (secp.derive xpub index)
]

-- `filter_map`: neither a plain key, of a cosigning server, nor a stakeholder's.
unfoldable pub only_managers : List ℕ → List (ℕ × Bool) → List ℕ
unfolding contains
only_managers stk_xpubs [] = []
only_managers stk_xpubs ((xpub, is_single) ∷ keys) =
    let rest = only_managers stk_xpubs keys in
    if is_single then rest else if contains stk_xpubs xpub then rest else xpub ∷ rest

unfoldable pub managers_xpubs : Daemon → List ℕ
unfolding only_managers
managers_xpubs daemon = only_managers daemon.deposit_xpubs daemon.unvault_keys

unfoldable pub managers_threshold : Daemon → ℕ
unfolding managers_xpubs
managers_threshold daemon = elim daemon.unvault_managers_threshold [
  | none ↦ length (managers_xpubs daemon)
  | some threshold ↦ threshold
]

abbrev pub gap_limit : ℕ
gap_limit = 100

-- `raw_index + self.gap_limit()` on `u32`, the last address that is watched
abbrev pub last_index : Daemon → ℕ
last_index daemon = (daemon.current_unused_index + gap_limit) % 2 ^ 32
