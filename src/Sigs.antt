-- ===== src/Sigs.antt =====
-- `BTreeMap<BitcoinPubKey, Vec<u8>>`, the signatures of a PSBT input. A key is a number, a signature
-- its bytes. The map is an association list with one entry for each key, and is walked in its order.
pub mod Laws
use revaultd.Prelude.{ℕ, Bool, true, false, Option, none, some, List, [], ◌∷◌, ◌==◌, if◌then◌else◌}

abbrev pub PubKey : Type 0
PubKey = ℕ

abbrev pub Bytes : Type 0
Bytes = List ℕ

abbrev pub SigMap : Type 0
SigMap = List (PubKey × Bytes)

-- `map.get(&key)`
unfoldable pub get : SigMap → PubKey → Option Bytes
get [] k = none
get ((j, s) ∷ m) k = if j == k then some s else get m k

abbrev pub is_some : Option Bytes → Bool
is_some none = false
is_some (some _) = true

-- `map.contains_key(&key)`
unfoldable pub contains_key : SigMap → PubKey → Bool
unfolding get
contains_key m k = is_some (get m k)

-- `map.insert(key, sig)`
unfoldable pub insert : PubKey → Bytes → SigMap → SigMap
insert k s [] = (k, s) ∷ []
insert k s ((j, t) ∷ m) = if j == k then (k, s) ∷ m else (j, t) ∷ insert k s m

-- `map.extend(sigs)`
unfoldable pub extend : SigMap → SigMap → SigMap
extend m [] = m
extend m ((k, s) ∷ sigs) = extend (insert k s m) sigs

-- The keys in order.
unfoldable pub keys : SigMap → List PubKey
keys [] = []
keys ((k, s) ∷ m) = k ∷ keys m
