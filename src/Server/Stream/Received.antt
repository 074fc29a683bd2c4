-- ===== src/Server/Stream/Received.antt =====
-- src/daemon/jsonrpc/server.rs: what `read_bytes_from_stream` returns, and that it returns.
use revaultd.Prelude.{
  ℕ, zero, suc, ◌+◌, ◌-◌, ◌≤◌, ◌<◌, ◌≡◌, ◌≢◌, ◌⊎◌, inl, inr, refl, subst, ◌==◌, Bool-cases, arith,
  Option, some, [], ◌∷◌, ◌++◌, length, Result, ok, err,
}
use revaultd.Server.Stream.{
  Bytes, StreamError, answer_of, still_running, ReadAnswer, got, would_block, interrupted, hung_up,
  failed, trimmed, grown, read_loop, read_bytes_from_stream,
}

length-append : (xs ys : Bytes) → length (xs ++ ys) ≡ length xs + length ys
length-append [] ys = omega arith
length-append (x ∷ xs) ys = omega (arith, length-append xs ys)

module _ (read : ℕ → ℕ → ReadAnswer) where
  -- The first calls, with a free part of the buffer each, have read these bytes.
  pub data Received : ℕ → Bytes → Type 0 where
    nothing : Received 0 []
    more :
        {n : ℕ} {bytes : Bytes} (free b : ℕ) (bs : Bytes)
        → Received n bytes
        → 0 < free
        → read n free ≡ got (b ∷ bs)
        → Received (suc n) (bytes ++ b ∷ bs)
    again :
        {n : ℕ} {bytes : Bytes} (free : ℕ)
        → Received n bytes
        → 0 < free
        → read n free ≡ interrupted
        → Received (suc n) bytes

  -- The stream is closed, or has nothing more for now.
  abbrev pub IsOver : ℕ → ℕ → Type 0
  IsOver n free = (read n free ≡ got []) ⊎ (read n free ≡ would_block)

  abbrev pub Returns : Bytes → Type 0
  Returns bytes =
      (n : ℕ) × (received : Bytes) × (free : ℕ) × Received n received
      × (0 < free)
      × IsOver n free
      × (received ≢ [])
      × (bytes ≡ trimmed received)

  -- `read` never writes past the end of its buffer.
  abbrev pub Fits : Type 0
  Fits = (n free : ℕ) (bytes : Bytes) → read n free ≡ got bytes → length bytes ≤ free

  data Case (n free : ℕ) : Type 0 where
    case_closed : read n free ≡ got [] → Case n free
    case_got : (b : ℕ) (bs : Bytes) → read n free ≡ got (b ∷ bs) → Case n free
    case_block : read n free ≡ would_block → Case n free
    case_again : read n free ≡ interrupted → Case n free
    case_hung : read n free ≡ hung_up → Case n free
    case_failed : read n free ≡ failed → Case n free

  cases_of : (n free : ℕ) (a : ReadAnswer) → read n free ≡ a → Case n free
  cases_of n free (got []) e = case_closed e
  cases_of n free (got (b ∷ bs)) e = case_got b bs e
  cases_of n free would_block e = case_block e
  cases_of n free interrupted e = case_again e
  cases_of n free hung_up e = case_hung e
  cases_of n free failed e = case_failed e

  over :
      (n free : ℕ) (received : Bytes) (bytes : Bytes)
      → Received n received
      → 0 < free
      → IsOver n free
      → answer_of received ≡ some bytes
      → Returns bytes
  over n free [] bytes r f o h = absurd cc h
  over n free (b ∷ bs) bytes r f o h = (n, b ∷ bs, free, r, f, o, λ e. cc, ground (arith, h))

  -- The buffer grows when it is full, so that some of it is free.
  grown_room :
      (received bytes : Bytes) (size : ℕ)
      → length received + length bytes ≤ size
      → 0 < length bytes
      → length (received ++ bytes) < grown (length (received ++ bytes)) size
  grown_room received bytes size h p = ground (arith, length-append received bytes)

  read_loop-Returns :
      (fuel n : ℕ) (received : Bytes) (size : ℕ) {bytes : Bytes}
      → Fits
      → length received < size
      → Received n received
      → read_loop read fuel n received size ≡ ok (some bytes)
      → Returns bytes
  unfolding read_loop
  read_loop-Returns zero n received size fits room r h = absurd cc h
  read_loop-Returns (suc fuel) n received size {bytes} fits room r h =
      elim (cases_of n (size - length received) (read n (size - length received)) refl) [
        | case_closed e ↦
            over n (size - length received) received bytes r (omega (arith, room)) (inl e)
              (ground (arith, e, h))
        | case_got b bs e ↦
            let free = size - length received in
            let fit = fits n free (b ∷ bs) e in
            read_loop-Returns fuel (suc n) (received ++ b ∷ bs)
              (grown (length (received ++ b ∷ bs)) size) fits
              (grown_room received (b ∷ bs) size (omega (arith, fit, room)) (omega arith))
              (more free b bs r (omega (arith, room)) e) (ground (arith, e, h))
        | case_block e ↦
            over n (size - length received) received bytes r (omega (arith, room)) (inr e)
              (ground (arith, e, h))
        | case_again e ↦
            read_loop-Returns fuel (suc n) received size fits room
              (again (size - length received) r (omega (arith, room)) e) (ground (arith, e, h))
        | case_hung e ↦ absurd (ground (arith, e, h))
        | case_failed e ↦ absurd (ground (arith, e, h))
      ]

  -- If `read` never writes more than the free part of the buffer, then this part is never empty, and
  -- the bytes that `read_bytes_from_stream` returns are all those that the calls up to the first end or
  -- pause of the stream have read, one or more, without the newlines at the end.
  pub read_bytes_from_stream-Returns :
      (fuel : ℕ) {bytes : Bytes}
      → Fits
      → read_bytes_from_stream read fuel ≡ ok (some bytes)
      → Returns bytes
  unfolding read_bytes_from_stream
  read_bytes_from_stream-Returns fuel fits h =
      read_loop-Returns fuel 0 [] 512 fits (omega arith) nothing h

  -- The m-th call reads no more bytes: the stream pauses, ends or fails there.
  abbrev pub Stops : ℕ → Type 0
  Stops m =
      (free : ℕ) → ((b : ℕ) (bs : Bytes) → read m free ≢ got (b ∷ bs)) × (read m free ≢ interrupted)

  -- A call that reads more is before the one that stops.
  before :
      (n m free : ℕ)
      → Stops m
      → n ≤ m
      → ((b : ℕ) × (bs : Bytes) × (read n free ≡ got (b ∷ bs))) ⊎ (read n free ≡ interrupted)
      → suc n ≤ m
  before n m free stops le more_read = elim (Bool-cases (n == m)) [
    | inl e ↦
        let same : m ≡ n = ground (arith, e) in
        absurd (no_more (subst Stops {x = m} {y = n} same stops free) more_read)
    | inr e ↦ ground (arith, e, le)
  ]
    where
      no_more :
          ((b : ℕ) (bs : Bytes) → read n free ≢ got (b ∷ bs)) × (read n free ≢ interrupted)
          → ((b : ℕ) × (bs : Bytes) × (read n free ≡ got (b ∷ bs))) ⊎ (read n free ≡ interrupted)
          → ⊥
      no_more (a, c) (inl (b, bs, e)) = a b bs e
      no_more (a, c) (inr e) = c e

  not_running :
      (received : Bytes) (r : Result StreamError (Option Bytes))
      → r ≡ ok (answer_of received)
      → r ≢ err still_running
  not_running received r e h = cc

  read_loop-ends :
      (fuel n m : ℕ) (received : Bytes) (size : ℕ)
      → Stops m
      → n ≤ m
      → m < n + fuel
      → read_loop read fuel n received size ≢ err still_running
  unfolding read_loop
  read_loop-ends zero n m received size stops le lt h = absurd (omega (arith, le, lt))
  read_loop-ends (suc fuel) n m received size stops le lt h =
      let free = size - length received in
      elim (cases_of n free (read n free) refl) [
        | case_closed e ↦ not_running received _ (ground (arith, e)) h
        | case_got b bs e ↦
            read_loop-ends fuel (suc n) m (received ++ b ∷ bs)
              (grown (length (received ++ b ∷ bs)) size) stops
              (before n m free stops le (inl (b, bs, e))) (omega (arith, lt)) (ground (arith, e, h))
        | case_block e ↦ not_running received _ (ground (arith, e)) h
        | case_again e ↦
            read_loop-ends fuel (suc n) m received size stops (before n m free stops le (inr e))
              (omega (arith, lt)) (ground (arith, e, h))
        | case_hung e ↦ ground (arith, e, h)
        | case_failed e ↦ ground (arith, e, h)
      ]

  -- If the m-th call reads no more bytes and is not interrupted, whatever part of the buffer is free,
  -- then m + 1 calls are enough for `read_bytes_from_stream` to return or fail.
  pub read_bytes_from_stream-ends :
      (m fuel : ℕ) → Stops m → m < fuel → read_bytes_from_stream read fuel ≢ err still_running
  unfolding read_bytes_from_stream
  read_bytes_from_stream-ends m fuel stops lt =
      read_loop-ends fuel 0 m [] 512 stops (omega arith) (omega (arith, lt))
