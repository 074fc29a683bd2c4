-- ===== src/Server/Loop.antt =====
-- src/daemon/jsonrpc/server.rs: `mio_loop`, which serves the connections by the events that mio reports.
-- What the operating system does is a parameter; a handler thread pushes its response between two
-- events.
pub mod Served
pub mod Accepted
pub mod Events
pub mod Reached
pub mod Caches
mod Tests
use revaultd.Prelude.{
  ℕ, zero, suc, ◌-◌, ◌≡◌, Bool, true, false, ◌&&◌, ◌||◌, Option, none, some, List, [], ◌∷◌, ◌++◌,
  ◌==◌, if◌then◌else◌, length, exists, map, Result, ok, err, ok_or, guard, ◌>>=◌, ◌>>◌,
}
use revaultd.Server.Stream.{
  Bytes, StreamError, fatal, ReadAnswer, read_bytes_from_stream, WriteAnswer, Socket,
  write_responses, take,
}
use revaultd.Server.Requests.{
  Next, call, partial, malformed, finished, Action, handled, spawned, joined, Handlers, join_oldest,
  read_handle_request,
}
use revaultd.Server.Connections.{find, without, put}

-- A stream with its queue of responses.
pub record Connection : Type 0 where
  pub resp_queue : List Bytes
  pub stream : Socket

-- The variables of the loop, the number of calls of `accept`, and the shutdown flag.
pub record Loop (C : Type 0) : Type 0 where
  pub unique_token : ℕ
  pub accepts : ℕ
  pub connections : List (ℕ × Connection)
  pub read_caches : List (ℕ × Bytes)
  pub handlers : Handlers (ℕ × C)
  pub is_shutdown : Bool

-- A stream, which may fail to be registered; `WouldBlock`; another error.
pub data AcceptAnswer : Type 0 where
  accepted : Bool → AcceptAnswer
  no_more refused : AcceptAnswer

-- An event, with whether the stream can be registered again, and what the stream does meanwhile.
pub record Event : Type 0 where
  pub token : ℕ
  pub is_readable : Bool
  pub is_writable : Bool
  pub is_read_closed : Bool
  pub is_error : Bool
  pub is_registered : Bool
  pub read : ℕ → ℕ → ReadAnswer
  pub write : ℕ → Bytes → WriteAnswer
  pub fuel : ℕ

-- An error that the loop returns, or the entry of the read cache that is assumed to be there.
pub data LoopError : Type 0 where
  ended : StreamError → LoopError
  missing_cache : LoopError

abbrev pub in_loop {ℓ} : {A : Type ℓ} → Result StreamError A → Result LoopError A
in_loop (ok a) = ok a
in_loop (err e) = err (ended e)

abbrev pub new_connection : Connection
new_connection = record { resp_queue = []; stream = record { writes = 0; sent = [] } }

abbrev pub tagged {ℓ} : {C : Type ℓ} → ℕ → Next C → Next (ℕ × C)
tagged t (call c rest) = call (t, c) rest
tagged t (partial rest) = partial rest
tagged t malformed = malformed
tagged t finished = finished

-- The calls that were handled at once.
abbrev pub handled_of {ℓ} : {C : Type ℓ} → List (Action C) → List C
handled_of [] = []
handled_of (handled c ∷ log) = handled_of log ++ c ∷ []
handled_of (spawned c ∷ log) = handled_of log
handled_of (joined c ∷ log) = handled_of log

abbrev pub new_actions {ℓ} : {C : Type ℓ} → Handlers C → Handlers C → List (Action C)
new_actions before after = take (length after.log - length before.log) after.log

-- `while let Some(t) = handler_threads.pop_front() { t.join().unwrap(); }`
unfoldable pub join_all {ℓ} : {C : Type ℓ} → List C → Handlers C → Handlers C
join_all [] h = h
join_all (c ∷ cs) h = join_all cs (join_oldest (c ∷ cs) h)

abbrev pub pushed :
    ℕ → List Bytes → List (ℕ × Connection) → Option Connection → List (ℕ × Connection)
pushed t resps connections none = connections
pushed t resps connections (some c) =
    put t (record c { resp_queue = c.resp_queue ++ resps }) connections

abbrev pub push_back : ℕ → List Bytes → List (ℕ × Connection) → List (ℕ × Connection)
push_back t resps connections = pushed t resps connections (find t connections)

module _ {C : Type 0} (accept : ℕ → AcceptAnswer) (next : Bytes → Next C) where
  -- The token of the stream is new.
  abbrev pub connected : Loop C → Loop C
  connected s = record s {
    unique_token = suc s.unique_token;
    accepts = suc s.accepts;
    connections = put s.unique_token new_connection s.connections;
    read_caches = put s.unique_token [] s.read_caches;
  }

  abbrev pub accept_one :
      (Loop C → Result LoopError (Loop C)) → AcceptAnswer → Loop C → Result LoopError (Loop C)
  accept_one again (accepted true) s = again (connected s)
  accept_one again (accepted false) s = err (ended fatal)
  accept_one again no_more s = ok (record s { accepts = suc s.accepts })
  accept_one again refused s = err (ended fatal)

  -- `while !metadata.is_shutdown() { match listener.accept() … }`, with fuel for each call
  unfoldable pub accept_all : ℕ → Loop C → Result LoopError (Loop C)
  accept_all zero s = err (ended StreamError.still_running)
  accept_all (suc fuel) s =
      let served = accept_one (accept_all fuel) (accept s.accepts) s in
      if s.is_shutdown then ok s else served

  -- `answer` is the response to a call, and `shuts_down` says of a call of `stop` whether it succeeds.
  module _ (is_stop shuts_down : C → Bool) (answer : ℕ × C → Bytes) where
    -- A call of `stop` is answered, and sets the flag, before the rest of the loop goes on.
    abbrev pub with_handled : ℕ → List (ℕ × C) → Loop C → Loop C
    with_handled t calls s = record s {
      connections = push_back t (map answer calls) s.connections;
      is_shutdown = s.is_shutdown || exists (λ (c : ℕ × C). shuts_down c.1) calls;
    }

    abbrev pub read_calls : Event → Loop C → Bytes → Result LoopError (Bytes × Handlers (ℕ × C))
    read_calls event s cache = in_loop (
        read_handle_request (λ (c : ℕ × C). is_stop c.1) (λ bytes. tagged event.token (next bytes))
          (read_bytes_from_stream event.read event.fuel) cache s.handlers)

    abbrev pub with_read : Event → Loop C → Bytes × Handlers (ℕ × C) → Loop C
    with_read event s (left, h) =
        with_handled event.token (handled_of (new_actions s.handlers h))
          (record s { read_caches = put event.token left s.read_caches; handlers = h })

    abbrev pub parse_on : Event → Loop C → Bytes → Result LoopError (Loop C)
    parse_on event s cache = read_calls event s cache >>= λ r. ok (with_read event s r)

    unfoldable pub handle_readable : Event → Loop C → Result LoopError (Loop C)
    unfolding read_handle_request read_bytes_from_stream
    handle_readable event s =
        ok_or missing_cache (find event.token s.read_caches) >>= parse_on event s

    abbrev pub written :
        ℕ
        → Loop C
        → Result StreamError (Unit {0}) × (List Bytes × Socket)
        → Result LoopError (Loop C)
    written t s (err e, _) = err (ended e)
    written t s (ok u, (queue, socket)) = ok (record s {
      connections = put t (record { resp_queue = queue; stream = socket }) s.connections;
    })

    unfoldable pub write_to : Event → Loop C → Option Connection → Result LoopError (Loop C)
    unfolding write_responses
    write_to event s none = ok s
    write_to event s (some c) =
        written event.token s (write_responses event.write event.fuel c.resp_queue c.stream)

    unfoldable pub handle_writable : Event → Loop C → Result LoopError (Loop C)
    unfolding write_to
    handle_writable event s = write_to event s (find event.token s.connections)

    abbrev pub is_empty : List (ℕ × Connection) → Bool
    is_empty [] = true
    is_empty (c ∷ cs) = false

    -- Whether the loop returns, and its variables: it does after the last connection of a shutdown.
    abbrev pub dropped : ℕ → Loop C → Bool × Loop C
    dropped t s =
        let s' : Loop C = record s { connections = without t s.connections } in
        if s.is_shutdown && is_empty s'.connections
        then (true, record s' { handlers = join_all s.handlers.threads s.handlers })
        else (false, s')

    abbrev pub readable_if : Event → Loop C → Result LoopError (Loop C)
    readable_if event s = if event.is_readable then handle_readable event s else ok s

    abbrev pub writable_if : Event → Loop C → Result LoopError (Loop C)
    writable_if event s = if event.is_writable then handle_writable event s else ok s

    abbrev pub close_if : Event → Loop C → Bool × Loop C
    close_if event s =
        if event.is_read_closed || event.is_error then dropped event.token s else (false, s)

    abbrev pub write_and_close : Event → Loop C → Result LoopError (Bool × Loop C)
    write_and_close event s = writable_if event s >>= λ s'. ok (close_if event s')

    unfoldable pub handle_connection : Event → Loop C → Result LoopError (Bool × Loop C)
    unfolding handle_readable handle_writable
    handle_connection event s =
        guard (ended fatal) event.is_registered >> (readable_if event s >>= write_and_close event)

    abbrev pub if_connected : Event → Loop C → Option Connection → Result LoopError (Bool × Loop C)
    if_connected event s none = ok (false, s)
    if_connected event s (some _) = handle_connection event s

    abbrev pub is_served : Loop C → Result LoopError (Bool × Loop C)
    is_served s = ok (false, s)

    -- The token 0 is that of the listener.
    unfoldable pub handle_event : Event → Loop C → Result LoopError (Bool × Loop C)
    unfolding accept_all handle_connection
    handle_event event s =
        if event.token == 0 && event.is_readable
        then (accept_all event.fuel s >>= is_served)
        else if_connected event s (find event.token s.connections)
