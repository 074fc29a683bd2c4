-- ===== src/Bitcoind/Client/Spender.antt =====
-- src/daemon/bitcoind/interface.rs: what the answer of `get_spender_txid` says.
use revaultd.Prelude.{
  ℕ, ◌≡◌, ◌⊎◌, ap, suc, Bool, true, false, Option, none, some, List, [], ◌∷◌, ◌%◌, ◌^◌, ok, ok_or,
  arith, All, exists, Bool-cases, Option-cases, inl, inr,
}
use revaultd.Fault.{custom, api_break}
use revaultd.Database.Schema.{Txid, OutPoint, outpoint_eq}
use revaultd.Bitcoind.Run.{World, Run, ◌>>=◌, lift, request, after-eq-ok}
use revaultd.Bitcoind.Json.{JsonInput, JsonTx, JsonEntry, spends}
use revaultd.Bitcoind.Client.{Rpc, search, visit, found_or, is_spending, get_spender_txid}

abbrev is_point : OutPoint → Option Txid → Option ℕ → Bool
is_point o none _ = false
is_point o (some t) none = false
is_point o (some t) (some v) = outpoint_eq o (record { txid = t; vout = v % 2 ^ 32 })

abbrev is_input : OutPoint → JsonInput → Bool
is_input o i = is_point o i.txid i.vout

spends-exists :
    (o : OutPoint) (vin : List JsonInput) {b : Bool}
    → spends o vin ≡ ok b
    → exists (is_input o) vin ≡ b
unfolding spends exists
spends-exists o [] h = ground arith
spends-exists o (i ∷ vin) {b} h = elim (Option-cases i.txid) [
  | inl e ↦ ground arith
  | inr (t, e) ↦ elim (Option-cases i.vout) [
    | inl e' ↦ ground arith
    | inr (v, e') ↦ ground (arith, spends-exists o vin {b = b})
  ]
]

-- An answer of bitcoind about the transaction that the text names says whether it spends the
-- outpoint.
abbrev pub Saw : Rpc → OutPoint → ℕ → Bool → Type 0
Saw rpc o text b =
    (n : ℕ) × (res : JsonTx) × (vin : List JsonInput) × (rpc.gettransaction n text ≡ ok res)
    × (res.vin ≡ some vin)
    × (exists (is_input o) vin ≡ b)

-- The search found the outgoing transaction `t`.
abbrev pub Found : Rpc → OutPoint → Txid → List JsonEntry → Type 0
Found rpc o t [] = ⊥
Found rpc o t (e ∷ es) =
    ((text : ℕ) × (e.is_send ≡ true)
      × (e.txid ≡ some text)
      × (rpc.from_text text ≡ some t)
      × Saw rpc o text true)
    ⊎ Found rpc o t es

-- The search looked at every outgoing transaction and none spends the outpoint.
abbrev pub Exhausted : Rpc → OutPoint → List JsonEntry → Type 0
Exhausted rpc o =
    All (λ (e : JsonEntry).
      e.is_send ≡ true → (text : ℕ) × (e.txid ≡ some text) × Saw rpc o text false)

abbrev pub Answers : Rpc → OutPoint → List JsonEntry → Option Txid → Type 0
Answers rpc o es none = Exhausted rpc o es
Answers rpc o es (some t) = Found rpc o t es

is_spending-Saw :
    (rpc : Rpc) (o : OutPoint) (text : ℕ) (w : World) {b : Bool} {w' : World}
    → is_spending rpc o text w ≡ (ok b, w')
    → Saw rpc o text b
unfolding is_spending
is_spending-Saw rpc o text w {b} {w'} h =
    let (res, e1, h1) =
      after-eq-ok (request (λ n. rpc.gettransaction n text) w)
        (λ res. lift (ok_or (custom api_break) res.vin) >>= λ vin. lift (spends o vin)) {b = b}
        {w' = w'} h in
    let (vin, e2, h2) =
      after-eq-ok (ok_or (custom api_break) res.vin, record w { requests = suc w.requests })
        (λ vin. lift (spends o vin)) {b = b} {w' = w'} h1 in
    (w.requests, res, vin, e1, ground arith, spends-exists o vin (ap (λ p. p.0) h2))

visit-Saw :
    (rpc : Rpc) (o : OutPoint) (e : JsonEntry) (rest : Run (Option Txid)) (w w' : World)
    (a : Option Txid)
    → visit rpc o e rest w ≡ (ok a, w')
    → (text : ℕ) × (found : Bool) × (v : World) × (e.txid ≡ some text)
      × Saw rpc o text found
      × (found_or rpc text rest found v ≡ (ok a, w'))
unfolding visit
visit-Saw rpc o e rest w w' a h =
    let (text, e1, h1) =
      after-eq-ok (ok_or (custom api_break) e.txid, w)
        (λ text. is_spending rpc o text >>= found_or rpc text rest) {b = a} {w' = w'} h in
    let (found, e2, h2) =
      after-eq-ok (is_spending rpc o text w) (found_or rpc text rest) {b = a} {w' = w'} h1 in
    (
      text,
      found,
      (is_spending rpc o text w).1,
      ground arith,
      is_spending-Saw rpc o text w {b = found} {w' = (is_spending rpc o text w).1} (ground arith),
      h2,
    )

skipped :
    (rpc : Rpc) (o : OutPoint) (e : JsonEntry) (es : List JsonEntry)
    → e.is_send ≡ false
    → (a : Option Txid) → Answers rpc o es a
    → Answers rpc o (e ∷ es) a
skipped rpc o e es s none later = ((λ t. absurd (cc (s, t))), later)
skipped rpc o e es s (some t) later = inr later

visited :
    (rpc : Rpc) (o : OutPoint) (e : JsonEntry) (es : List JsonEntry) (text : ℕ)
    → e.is_send ≡ true
    → e.txid ≡ some text
    → (found : Bool) → Saw rpc o text found
    → (v w' : World) (a : Option Txid) → (search rpc o es v ≡ (ok a, w') → Answers rpc o es a)
    → found_or rpc text (search rpc o es) found v ≡ (ok a, w')
    → Answers rpc o (e ∷ es) a
visited rpc o e es text s e1 false saw v w' none later h = ((λ t. (text, e1, saw)), later h)
visited rpc o e es text s e1 false saw v w' (some t) later h = inr (later h)
visited rpc o e es text s e1 true saw v w' none later h = absurd (ground arith)
visited rpc o e es text s e1 true saw v w' (some t) later h = inl (text, s, e1, ground arith, saw)

search-Answers :
    (rpc : Rpc) (o : OutPoint) (es : List JsonEntry) (w w' : World) (a : Option Txid)
    → search rpc o es w ≡ (ok a, w')
    → Answers rpc o es a
unfolding search
search-Answers rpc o [] w w' none h = tt
search-Answers rpc o [] w w' (some t) h = absurd (ground arith)
search-Answers rpc o (e ∷ es) w w' a h = elim (Bool-cases e.is_send) [
  | inr s ↦ skipped rpc o e es s a (search-Answers rpc o es w w' a (ground arith))
  | inl s ↦
      let (text, found, v, e1, saw, h1) =
        visit-Saw rpc o e (search rpc o es) w w' a (ground arith) in
      visited rpc o e es text s e1 found saw v w' a (search-Answers rpc o es v w' a) h1
]

-- When `get_spender_txid` returns, bitcoind listed transactions since the block, and either the
-- answer is the txid of an outgoing one of them that bitcoind said spends the outpoint, or there
-- is no answer and bitcoind said of every outgoing one that it does not spend the outpoint.
pub get_spender_txid-Answers :
    (rpc : Rpc) (o : OutPoint) (block_hash : ℕ) (w w' : World) {a : Option Txid}
    → get_spender_txid rpc o block_hash w ≡ (ok a, w')
    → (es : List JsonEntry) × (rpc.listsinceblock w.requests block_hash ≡ ok (some es))
      × Answers rpc o es a
unfolding get_spender_txid
get_spender_txid-Answers rpc o block_hash w w' {a} h =
    let (res, e1, h1) =
      after-eq-ok (request (λ n. rpc.listsinceblock n block_hash) w)
        (λ res. lift (ok_or (custom api_break) res) >>= search rpc o) {b = a} {w' = w'} h in
    let (es, e2, h2) =
      after-eq-ok (ok_or (custom api_break) res, record w { requests = suc w.requests })
        (search rpc o) {b = a} {w' = w'} h1 in
    (es, ground arith, search-Answers rpc o es (record w { requests = suc w.requests }) w' a h2)
