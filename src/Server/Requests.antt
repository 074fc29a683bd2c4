-- ===== src/Server/Requests.antt =====
-- src/daemon/jsonrpc/server.rs: the requests in the bytes that a connection has sent, and the threads
-- that handle them. The threads are taken to return: `join().unwrap()` panics on one that panicked,
-- which is not modelled.
pub mod Chunks
pub mod Threads
use revaultd.Prelude.{
  ℕ, zero, suc, leb, Bool, true, false, Option, none, some, List, [], ◌∷◌, ◌++◌, if◌then◌else◌,
  length, Result, ok, err,
}
use revaultd.Server.Stream.{Bytes, StreamError, fatal, out_of_bounds, still_running}

-- What serde_json's stream of values gives next: a call and the bytes after it; the bytes of a value of
-- which the end is missing; an error that more bytes do not mend; no value.
pub data Next {ℓ} (C : Type ℓ) : Type ℓ where
  call : C → Bytes → Next C
  partial : Bytes → Next C
  malformed finished : Next C

-- What is done with the calls: one is handled at once, a thread is started for it, or the thread of one
-- is waited for.
pub data Action {ℓ} (C : Type ℓ) : Type ℓ where
  handled spawned joined : C → Action C

-- The calls that threads are at work on, the oldest one first, and the actions, the last one first.
pub record Handlers {ℓ} (C : Type ℓ) : Type ℓ where
  pub threads : List C
  pub log : List (Action C)

abbrev pub max_handler_threads : ℕ
max_handler_threads = 4

module _ {ℓ} {C : Type ℓ} where
  -- `handler_threads.pop_front().expect(…).join()`
  abbrev pub join_oldest : List C → Handlers C → Handlers C
  join_oldest [] h = h
  join_oldest (oldest ∷ rest) h = record h { threads = rest; log = joined oldest ∷ h.log }

  abbrev pub make_room : Handlers C → Handlers C
  make_room h = if leb max_handler_threads (length h.threads) then join_oldest h.threads h else h

  abbrev pub spawn : C → Handlers C → Handlers C
  spawn c h = record h { threads = h.threads ++ c ∷ []; log = spawned c ∷ h.log }

  module _ (is_stop : C → Bool) where
    -- `stop` is handled by the thread of the server.
    unfoldable pub dispatch : C → Handlers C → Handlers C
    dispatch c h = if is_stop c then record h { log = handled c ∷ h.log } else spawn c (make_room h)

    -- One round of `while let Some(method_call) = de.next()`, with what is left of the bytes at the end:
    -- those of a value that is not complete, and none after another error or where there is no value.
    abbrev pub handle_next :
        (Bytes → Handlers C → Result StreamError (Bytes × Handlers C))
        → Next C
        → Handlers C
        → Result StreamError (Bytes × Handlers C)
    handle_next again (call c rest) h = again rest (dispatch c h)
    handle_next again (partial rest) h = ok (rest, h)
    handle_next again malformed h = ok ([], h)
    handle_next again finished h = ok ([], h)

    module _ (next : Bytes → Next C) where
      unfoldable pub handle_calls : ℕ → Bytes → Handlers C → Result StreamError (Bytes × Handlers C)
      unfolding dispatch
      handle_calls zero cache h = err still_running
      handle_calls (suc fuel) cache h = handle_next (handle_calls fuel) (next cache) h

      -- The bytes are those that were read, if any; with fuel for each byte in the cache.
      unfoldable pub read_handle_request :
          Result StreamError (Option Bytes)
          → Bytes
          → Handlers C
          → Result StreamError (Bytes × Handlers C)
      unfolding handle_calls
      read_handle_request (err e) cache h = err e
      read_handle_request (ok none) cache h = ok (cache, h)
      read_handle_request (ok (some new)) cache h =
          handle_calls (suc (length (cache ++ new))) (cache ++ new) h
