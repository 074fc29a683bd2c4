-- ===== src/Sigs/Laws.antt =====
-- What a key is bound to after an insertion and after a merge of two maps.
use revaultd.Prelude.{
  ◌≡◌, refl, none, some, [], ◌∷◌, ◌==◌, arith, if◌then◌else◌, Option, Bool-cases, inl, inr, ap,
  ==_iff,
}
use revaultd.Sigs.{PubKey, Bytes, SigMap, get, insert, extend}

pub get-insert :
    (k j : PubKey) (s : Bytes) (m : SigMap)
    → get (insert k s m) j ≡ (if k == j then some s else get m j)
unfolding get insert
get-insert k j s [] = refl
get-insert k j s ((i, t) ∷ m) = ground (arith, get-insert k j s m)

-- A map has each key once.
abbrev pub HasNoTwice : SigMap → Type 0
HasNoTwice [] = Unit
HasNoTwice ((k, s) ∷ m) = (get m k ≡ none) × HasNoTwice m

abbrev pub or_else : Option Bytes → Option Bytes → Option Bytes
or_else none old = old
or_else (some s) old = some s

-- Of a key in both maps, the second one's signature is kept.
pub get-extend :
    (m sigs : SigMap) (k : PubKey)
    → HasNoTwice sigs
    → get (extend m sigs) k ≡ or_else (get sigs k) (get m k)
unfolding get extend
get-extend m [] k h = refl
get-extend m ((j, s) ∷ sigs) k (h, hs) = elim (Bool-cases (j == k)) [
  | inl e ↦ ground (
    arith,
    e,
    h,
    get-extend (insert j s m) sigs k hs,
    get-insert j k s m,
    ap (get sigs) ((==_iff j k).0 e),
  )
  | inr e ↦ ground (arith, e, get-extend (insert j s m) sigs k hs, get-insert j k s m)
]
