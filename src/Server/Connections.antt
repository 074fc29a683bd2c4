-- ===== src/Server/Connections.antt =====
-- src/daemon/jsonrpc/server.rs: the tables of `mio_loop` by token, of the connections and of the bytes
-- that they have sent. A table is an association list, of which the first entry for a token counts.
use revaultd.Prelude.{
  ℕ, ◌≡◌, ◌≢◌, refl, arith, Option, none, some, List, [], ◌∷◌, ◌==◌, if◌then◌else◌,
}

module _ {ℓ} {V : Type ℓ} where
  unfoldable pub find : ℕ → List (ℕ × V) → Option V
  find t [] = none
  find t ((u, v) ∷ m) = if u == t then some v else find t m

  unfoldable pub without : ℕ → List (ℕ × V) → List (ℕ × V)
  without t [] = []
  without t ((u, v) ∷ m) = let rest = without t m in if u == t then rest else (u, v) ∷ rest

  unfoldable pub put : ℕ → V → List (ℕ × V) → List (ℕ × V)
  unfolding without
  put t v m = (t, v) ∷ without t m

  pub find-without_same : (t : ℕ) (m : List (ℕ × V)) → find t (without t m) ≡ none
  unfolding find without
  find-without_same t [] = refl
  find-without_same t ((u, v) ∷ m) = ground (arith, find-without_same t m)

  pub find-without_other : (t u : ℕ) (m : List (ℕ × V)) → u ≢ t → find u (without t m) ≡ find u m
  unfolding find without
  find-without_other t u [] n = refl
  find-without_other t u ((w, v) ∷ m) n = ground (arith, n, find-without_other t u m n)

  pub find-put_same : (t : ℕ) (v : V) (m : List (ℕ × V)) → find t (put t v m) ≡ some v
  unfolding find put
  find-put_same t v m = ground arith

  pub find-put_other : (t u : ℕ) (v : V) (m : List (ℕ × V)) → u ≢ t → find u (put t v m) ≡ find u m
  unfolding find put
  find-put_other t u v m n = ground (arith, n, find-without_other t u m n)
