-- ===== src/Server/Stream.antt =====
-- src/daemon/jsonrpc/server.rs: bytes are read from a stream and written to one.
pub mod Sent
pub mod Received
use mathlib.Core.List.{reverse}
use revaultd.Prelude.{
  ℕ, zero, suc, ◌+◌, ◌-◌, ◌*◌, ltb, Bool, true, false, not, ◌||◌, Option, none, some, List, [], ◌∷◌,
  ◌++◌, ◌==◌, if◌then◌else◌, length, Result, ok, err,
}

abbrev pub Bytes : Type 0
Bytes = List ℕ

-- An `io::Error` that is returned, a slice out of bounds, and the end of the fuel.
pub data StreamError : Type 0 where
  fatal out_of_bounds still_running : StreamError

abbrev pub take {ℓ} : {A : Type ℓ} → ℕ → List A → List A
take zero xs = []
take (suc n) [] = []
take (suc n) (x ∷ xs) = x ∷ take n xs

abbrev pub drop {ℓ} : {A : Type ℓ} → ℕ → List A → List A
drop zero xs = xs
drop (suc n) [] = []
drop (suc n) (x ∷ xs) = drop n xs

-- What `read` answers: the bytes that it wrote to the buffer, none of them if the stream is closed, or
-- an error. The three errors of a peer that has gone are one.
pub data ReadAnswer : Type 0 where
  got : Bytes → ReadAnswer
  would_block interrupted hung_up failed : ReadAnswer

-- `byte < &0x0a || byte > &0x0d`
abbrev is_not_newline : ℕ → Bool
is_not_newline byte = ltb byte 0x0a || ltb 0x0d byte

-- `while let Some(byte) = vec.last()`, on the bytes from the last one
unfoldable pub pop_newlines : Bytes → Bytes
pop_newlines [] = []
pop_newlines (byte ∷ bytes) =
    let rest = pop_newlines bytes in if is_not_newline byte then byte ∷ bytes else rest

-- The buffer is the bytes that were read, so `truncate(bytes_read)` leaves them.
unfoldable pub trimmed : Bytes → Bytes
unfolding pop_newlines
trimmed bytes = reverse (pop_newlines (reverse bytes))

-- The end of the reading: nothing if no byte was read.
abbrev pub answer_of : Bytes → Option Bytes
answer_of [] = none
answer_of (byte ∷ bytes) = some (trimmed (byte ∷ bytes))

-- `if total_read == buf.len() { buf.resize(total_read * 2, 0) }`
abbrev pub grown : ℕ → ℕ → ℕ
grown total_read size = if total_read == size then total_read * 2 else size

module _ (read : ℕ → ℕ → ReadAnswer) where
  -- The n-th call of `read` is given the free part of the buffer, of which the model has the size.
  -- The fuel is the number of calls.
  unfoldable pub read_loop : ℕ → ℕ → Bytes → ℕ → Result StreamError (Option Bytes)
  unfolding trimmed
  read_loop zero n received size = err still_running
  read_loop (suc fuel) n received size = elim (read n (size - length received)) [
    | got bytes ↦ elim bytes [
      | [] ↦ ok (answer_of received)
      | b ∷ bs ↦
          read_loop fuel (suc n) (received ++ b ∷ bs) (grown (length (received ++ b ∷ bs)) size)
    ]
    | would_block ↦ ok (answer_of received)
    | interrupted ↦ read_loop fuel (suc n) received size
    | hung_up ↦ ok none
    | failed ↦ err fatal
  ]

  unfoldable pub read_bytes_from_stream : ℕ → Result StreamError (Option Bytes)
  unfolding read_loop
  read_bytes_from_stream fuel = read_loop fuel 0 [] 512

-- What `write` answers: how many bytes it took. `WouldBlock` and `Interrupted` are one.
pub data WriteAnswer : Type 0 where
  wrote : ℕ → WriteAnswer
  not_now broken : WriteAnswer

-- The number of calls of `write`, and the bytes that these have taken.
pub record Socket : Type 0 where
  pub writes : ℕ
  pub sent : Bytes

module _ (write : ℕ → Bytes → WriteAnswer) where
  -- `resp[written..]` is what is left of the response: at its end, it is written.
  abbrev pub write_on :
      (Bytes → Socket → Result StreamError (Option Bytes) × Socket)
      → ℕ
      → Bytes
      → Socket
      → Result StreamError (Option Bytes) × Socket
  write_on again n left s =
      let s' = record s { writes = suc s.writes; sent = s.sent ++ take n left } in
      if ltb (length left) n
      then (err out_of_bounds, s')
      else if n == length left
      then (ok none, s')
      else again (drop n left) s'

  unfoldable pub write_byte_stream : ℕ → Bytes → Socket → Result StreamError (Option Bytes) × Socket
  write_byte_stream zero left s = (err still_running, s)
  write_byte_stream (suc fuel) left s = elim (write s.writes left) [
    | wrote n ↦ write_on (write_byte_stream fuel) n left s
    | not_now ↦ (ok (some left), record s { writes = suc s.writes })
    | broken ↦ (err fatal, record s { writes = suc s.writes })
  ]

  -- `match write_byte_stream(stream, resp)`: a response that is not all written is put in front again,
  -- one whose writing fails is lost.
  abbrev pub go_on :
      (List Bytes → Socket → Result StreamError (Unit {0}) × (List Bytes × Socket))
      → List Bytes
      → Result StreamError (Option Bytes) × Socket
      → Result StreamError (Unit {0}) × (List Bytes × Socket)
  go_on again queue (ok none, s) = again queue s
  go_on again queue (ok (some left), s) = again (left ∷ queue) s
  go_on again queue (err fatal, s) = again queue s
  go_on again queue (err out_of_bounds, s) = (err out_of_bounds, (queue, s))
  go_on again queue (err still_running, s) = (err still_running, (queue, s))

  -- `loop { match resp_queue.pop_front() … }` on a writable stream.
  unfoldable pub write_responses :
      ℕ → List Bytes → Socket → Result StreamError (Unit {0}) × (List Bytes × Socket)
  unfolding write_byte_stream
  write_responses zero queue s = (err still_running, (queue, s))
  write_responses (suc fuel) [] s = (ok tt, ([], s))
  write_responses (suc fuel) (resp ∷ queue) s =
      go_on (write_responses fuel) queue (write_byte_stream fuel resp s)
