-- ===== src/Cache.antt =====
-- `HashMap<OutPoint, UtxoInfo>` (src/daemon/bitcoind/interface.rs), the poller's view of the deposits
-- and of the Unvaults: an association list, of which the first entry for an outpoint counts.
pub mod Laws
use revaultd.Prelude.{
  ℕ, Bool, true, false, Option, none, some, List, [], ◌∷◌, ◌==◌, ◌&&◌, if◌then◌else◌,
}
use revaultd.Database.Schema.{OutPoint, outpoint_eq}

pub record UtxoInfo : Type 0 where
  pub value : ℕ
  pub script_pubkey : ℕ
  pub is_confirmed : Bool

abbrev pub Cache : Type 0
Cache = List (OutPoint × UtxoInfo)

unfoldable pub get : Cache → OutPoint → Option UtxoInfo
get [] o = none
get ((p, i) ∷ c) o = if outpoint_eq p o then some i else get c o

unfoldable pub insert : OutPoint → UtxoInfo → Cache → Cache
insert o i [] = (o, i) ∷ []
insert o i ((p, j) ∷ c) = if outpoint_eq p o then (o, i) ∷ c else (p, j) ∷ insert o i c

unfoldable pub remove : OutPoint → Cache → Cache
remove o [] = []
remove o ((p, i) ∷ c) = let rest = remove o c in if outpoint_eq p o then rest else (p, i) ∷ rest

-- `cache.get_mut(&o)` and an assignment to `is_confirmed`; `none` if there is no such entry.
unfoldable pub set_confirmed : Bool → OutPoint → Cache → Option Cache
unfolding get insert
set_confirmed b o c = elim (get c o) [
  | none ↦ none
  | some i ↦ some (insert o (record i { is_confirmed = b }) c)
]
