-- ===== src/Api/Tests/Fetcher.antt =====
-- The coordinator answers with the signature of a stakeholder and with that of a stranger.
use revaultd.Prelude.{ℕ, ◌≡◌, arith, some, List, [], ◌∷◌}
use revaultd.Status.{funded}
use revaultd.Sigs.{PubKey, Bytes, insert}
use revaultd.Database.Schema.{Psbt, cancel}
use revaultd.Sigfetcher.{add_fetched}
use revaultd.Sigfetcher.Fetched.{RowIsAmong, add_fetched-RowIsAmong}
use revaultd.Api.Tests.{curve, row, session, servers, daemon, txs, not_final}

adds :
    (tx : Psbt) (k : PubKey) (sig : ℕ) (tx' : Psbt)
    → txs.add_signature tx k sig ≡ some tx'
    → (bytes : Bytes) × (tx'.partial_sigs ≡ insert k bytes tx.partial_sigs)
adds tx k sig tx' h = (sig ∷ 129 ∷ [], ground (arith, h))

abbrev answer : List (PubKey × ℕ)
answer = (3, 48) ∷ (5, 49) ∷ []

add_fetched-RowIsAmong_example :
    RowIsAmong
      (3 ∷ [])
      2
      (add_fetched curve not_final servers daemon txs 1 2
        (3 ∷ [])
        answer
        (row 2 cancel 12).psbt
        (session funded)).1.db
add_fetched-RowIsAmong_example =
    add_fetched-RowIsAmong curve not_final servers daemon txs (3 ∷ []) 1 2 adds answer
      (row 2 cancel 12).psbt (session funded) tt
      ((λ _. tt), ((λ _. tt), ((λ _. tt), ((λ _. tt), tt))))
