-- ===== src/Server/Stream/Sent.antt =====
-- src/daemon/jsonrpc/server.rs: what is written to a stream that takes bytes, and what happens while it
-- takes none.
use mathlib.Core.List.{append_assoc, append-nil}
use revaultd.Prelude.{
  ℕ, zero, suc, ◌+◌, ◌≤◌, ◌<◌, ◌≡◌, ◌≢◌, ◌∙◌, refl, sym, ap, arith, none, List, [], ◌∷◌, ◌++◌, ◌==◌,
  Bool-cases, inl, inr, length, ok, err,
}
use revaultd.Server.Stream.{
  Bytes, still_running, take, drop, WriteAnswer, wrote, not_now, Socket, write_byte_stream,
  write_responses, go_on,
}

module _ {ℓ} {A : Type ℓ} where
  take-append-drop : (n : ℕ) (xs : List A) → take n xs ++ drop n xs ≡ xs
  take-append-drop zero xs = refl
  take-append-drop (suc n) [] = refl
  take-append-drop (suc n) (x ∷ xs) = ap (λ ys. x ∷ ys) (take-append-drop n xs)

  take_all : (xs : List A) → take (length xs) xs ≡ xs
  take_all [] = refl
  take_all (x ∷ xs) = ap (λ ys. x ∷ ys) (take_all xs)

  length-drop : (n : ℕ) (xs : List A) → n ≤ length xs → length (drop n xs) + n ≡ length xs
  length-drop zero xs h = omega arith
  length-drop (suc n) [] h = omega arith
  length-drop (suc n) (x ∷ xs) h = omega (arith, length-drop n xs)

-- The bytes of the responses, one after the other.
abbrev pub bytes_of : List Bytes → Bytes
bytes_of [] = []
bytes_of (resp ∷ queue) = resp ++ bytes_of queue

abbrev pub size_of : List Bytes → ℕ
size_of [] = 0
size_of (resp ∷ queue) = suc (length resp + size_of queue)

-- The stream takes some of the bytes that it is given, as `write` does on one that is ready.
abbrev pub Takes : (ℕ → Bytes → WriteAnswer) → Type 0
Takes write =
    (n : ℕ) (left : Bytes)
    → (k : ℕ) × (write n left ≡ wrote k) × (k ≤ length left) × (left ≢ [] → 0 < k)

-- after one call that took `k` bytes
abbrev after_write : ℕ → Bytes → Socket → Socket
after_write k left s = record s { writes = suc s.writes; sent = s.sent ++ take k left }

module _ (write : ℕ → Bytes → WriteAnswer) where
  last_write :
      (fuel k : ℕ) (left : Bytes) (s : Socket)
      → write s.writes left ≡ wrote k
      → k ≡ length left
      → write_byte_stream write (suc fuel) left s ≡ (ok none, after_write k left s)
  unfolding write_byte_stream
  last_write fuel k left s e h = ground (arith, e, h)

  next_write :
      (fuel k : ℕ) (left : Bytes) (s : Socket)
      → write s.writes left ≡ wrote k
      → k < length left
      → write_byte_stream write (suc fuel) left s
        ≡ write_byte_stream write fuel (drop k left) (after_write k left s)
  unfolding write_byte_stream
  next_write fuel k left s e h = ground (arith, e, h)

  module _ (takes : Takes write) where
    write_byte_stream-all :
        (fuel : ℕ) (left : Bytes) (s : Socket)
        → length left < fuel
        → (s' : Socket) × (write_byte_stream write fuel left s ≡ (ok none, s'))
          × (s'.sent ≡ s.sent ++ left)
    write_byte_stream-all zero left s h = elim h [ ]
    write_byte_stream-all (suc fuel) left s h =
        let (k, e, le, pos) = takes s.writes left in
        elim (Bool-cases (k == length left)) [
          | inl all ↦
              let same : k ≡ length left = ground (arith, all) in
              (
                after_write k left s,
                last_write fuel k left s e same,
                ap (λ n. s.sent ++ take n left) same ∙ ap (λ bs. s.sent ++ bs) (take_all left),
              )
          | inr part ↦
              let less : k < length left = ground (arith, part, le) in
              let some_byte : 0 < k =
                pos (λ empty. absurd (omega (arith, less, ap (length {A = ℕ}) empty))) in
              let (s', e', sent) =
                write_byte_stream-all fuel (drop k left) (after_write k left s)
                  (omega (arith, length-drop k left le, h, some_byte)) in
              (
                s',
                next_write fuel k left s e less ∙ e',
                sent
                    ∙ append_assoc s.sent (take k left) (drop k left)
                    ∙ ap (λ bs. s.sent ++ bs) (take-append-drop k left),
              )
        ]

    -- If the stream takes at least one byte of each slice that is not empty, the responses of the queue
    -- are all written, in order and whole, with fuel for each byte and each response.
    pub write_responses-all :
        (fuel : ℕ) (queue : List Bytes) (s : Socket)
        → size_of queue < fuel
        → (s' : Socket) × (write_responses write fuel queue s ≡ (ok tt, ([], s')))
          × (s'.sent ≡ s.sent ++ bytes_of queue)
    unfolding write_responses
    write_responses-all zero queue s h = elim h [ ]
    write_responses-all (suc fuel) [] s h = (s, refl, sym (append-nil s.sent))
    write_responses-all (suc fuel) (resp ∷ queue) s h =
        let (s1, e1, sent1) = write_byte_stream-all fuel resp s (omega (arith, h)) in
        let (s2, e2, sent2) = write_responses-all fuel queue s1 (omega (arith, h)) in
        (
          s2,
          ap (go_on write (write_responses write fuel) queue) e1 ∙ e2,
          sent2 ∙ ap (λ bs. bs ++ bytes_of queue) sent1 ∙ append_assoc s.sent resp (bytes_of queue),
        )

  -- While the stream takes nothing, the loop over the responses does not end: with a response in the
  -- queue, it runs out of any fuel. So a peer that does not read stops the server.
  pub write_responses-spins :
      (fuel : ℕ) (resp : Bytes) (queue : List Bytes) (s : Socket)
      → ((n : ℕ) (left : Bytes) → write n left ≡ not_now)
      → (write_responses write fuel (resp ∷ queue) s).0 ≡ err still_running
  unfolding write_responses write_byte_stream
  write_responses-spins zero resp queue s full = refl
  write_responses-spins (suc zero) resp queue s full = refl
  write_responses-spins (suc (suc fuel)) resp queue s full = ground (
    arith,
    full s.writes resp,
    write_responses-spins (suc fuel) resp queue (record s { writes = suc s.writes }) full,
  )
