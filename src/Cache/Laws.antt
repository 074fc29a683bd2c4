-- ===== src/Cache/Laws.antt =====
-- What an outpoint is bound to after each operation on a cache.
use revaultd.Prelude.{◌≡◌, ◌↔◌, refl, Bool, true, none, some, [], ◌∷◌, arith, if◌then◌else◌}
use revaultd.Database.Schema.{OutPoint, outpoint_eq}
use revaultd.Cache.{UtxoInfo, Cache, get, insert, remove, set_confirmed}

pub outpoint_eq_iff : (a b : OutPoint) → (outpoint_eq a b ≡ true) ↔ (a ≡ b)
outpoint_eq_iff a b = ground arith

pub get-insert :
    (o p : OutPoint) (i : UtxoInfo) (c : Cache)
    → get (insert o i c) p ≡ (if outpoint_eq o p then some i else get c p)
unfolding get insert
get-insert o p i [] = refl
get-insert o p i ((q, j) ∷ c) = ground (arith, get-insert o p i c)

pub get-remove :
    (o p : OutPoint) (c : Cache) → get (remove o c) p ≡ (if outpoint_eq o p then none else get c p)
unfolding get remove
get-remove o p [] = ground arith
get-remove o p ((q, j) ∷ c) = ground (arith, get-remove o p c)

pub get-set_confirmed :
    (b : Bool) (o p : OutPoint) (c : Cache) {i : UtxoInfo} {c' : Cache}
    → get c o ≡ some i
    → set_confirmed b o c ≡ some c'
    → get c' p ≡ (if outpoint_eq o p then some (record i { is_confirmed = b }) else get c p)
unfolding set_confirmed
get-set_confirmed b o p c {i} h e = ground (arith, get-insert o p (record i { is_confirmed = b }) c)
