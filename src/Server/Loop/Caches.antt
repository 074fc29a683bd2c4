-- ===== src/Server/Loop/Caches.antt =====
-- src/daemon/jsonrpc/server.rs: an event of `mio_loop` finds the read cache of its connection.
use revaultd.Prelude.{
  ℕ, zero, suc, ◌≡◌, ◌≢◌, refl, arith, Bool, true, false, Bool-cases, inl, inr, ◌&&◌, Option, none,
  some, List, ◌==◌, Result, ok, err, guard, ◌>>=◌,
}
use revaultd.Server.Stream.{Bytes, StreamError, Socket, write_responses, fatal}
use revaultd.Server.Requests.{Next}
use revaultd.Server.Connections.{find}
use revaultd.Server.Loop.{
  Connection, Loop, AcceptAnswer, accepted, no_more, refused, Event, LoopError, ended,
  missing_cache, in_loop, connected, accept_one, accept_all, readable_if, writable_if, close_if,
  write_and_close, read_calls, handle_readable, written, write_to, handle_writable,
  handle_connection, if_connected, is_served, handle_event,
}
use revaultd.Server.Loop.Served.{IsServed}

module _ {C : Type 0} (accept : ℕ → AcceptAnswer) (next : Bytes → Next C)
    (is_stop shuts_down : C → Bool) (answer : ℕ × C → Bytes) where
  -- what the steps of an event may answer
  abbrev Finds : {A : Type 0} → Result LoopError A → Type 0
  Finds r = r ≢ err missing_cache

  in_loop-Finds : {A : Type 0} (r : Result StreamError A) → Finds (in_loop r)
  in_loop-Finds (ok a) h = absurd (cc h)
  in_loop-Finds (err e) h = absurd (cc h)

  >>=-Finds :
      {A B : Type 0} (m : Result LoopError A) (f : A → Result LoopError B)
      → Finds m
      → ((a : A) → m ≡ ok a → Finds (f a))
      → Finds (m >>= f)
  >>=-Finds (ok a) f h k = k a refl
  >>=-Finds (err e) f h k = λ p. h (cc p)

  accept_all-Finds : (fuel : ℕ) (s : Loop C) → Finds (accept_all accept next fuel s)
  unfolding accept_all
  accept_all-Finds zero s = λ h. absurd (cc h)
  accept_all-Finds (suc fuel) s = elim (Bool-cases s.is_shutdown) [
    | inl y ↦ λ h. absurd (in_loop-Finds (ok s) (ground (arith, y, h)))
    | inr n ↦ λ h.
        accept_one-Finds (accept s.accepts) (accept_all-Finds fuel (connected accept next s))
          (ground (arith, n, h))
  ]
    where
      accept_one-Finds :
          (a : AcceptAnswer)
          → Finds (accept_all accept next fuel (connected accept next s))
          → Finds (accept_one accept next (accept_all accept next fuel) a s)
      accept_one-Finds (accepted true) h = h
      accept_one-Finds (accepted false) h = λ h. absurd (cc h)
      accept_one-Finds refused h = λ h. absurd (cc h)
      accept_one-Finds no_more h = λ h. absurd (cc h)

  handle_readable-Finds :
      (event : Event) (s : Loop C) (b : Bytes)
      → find event.token s.read_caches ≡ some b
      → Finds (handle_readable accept next is_stop shuts_down answer event s)
  unfolding handle_readable
  handle_readable-Finds event s b h = rw h (
      >>=-Finds (read_calls accept next is_stop shuts_down answer event s b) _ (in_loop-Finds _)
        (λ r e p. absurd (cc p)))

  handle_writable-Finds :
      (event : Event) (s : Loop C)
      → Finds (handle_writable accept next is_stop shuts_down answer event s)
  unfolding handle_writable write_to
  handle_writable-Finds event s = write_to-Finds (find event.token s.connections)
    where
      written-Finds :
          (r : Result StreamError (Unit {0}) × (List Bytes × Socket))
          → Finds (written accept next is_stop shuts_down answer event.token s r)
      written-Finds (err x, qk) h = absurd (cc h)
      written-Finds (ok u, qk) h = absurd (cc h)

      write_to-Finds :
          (o : Option Connection) → Finds (write_to accept next is_stop shuts_down answer event s o)
      write_to-Finds none h = absurd (cc h)
      write_to-Finds (some c) h =
          written-Finds (write_responses event.write event.fuel c.resp_queue c.stream) h

  write_and_close-Finds :
      (event : Event) (s : Loop C)
      → Finds (write_and_close accept next is_stop shuts_down answer event s)
  write_and_close-Finds event s =
      >>=-Finds (writable_if accept next is_stop shuts_down answer event s)
        (λ s'. ok (close_if accept next is_stop shuts_down answer event s')) writable_if-Finds
        (λ s' e p. absurd (cc p))
    where
      writable_if-Finds : Finds (writable_if accept next is_stop shuts_down answer event s)
      writable_if-Finds h = elim (Bool-cases event.is_writable) [
        | inl y ↦ handle_writable-Finds event s (ground (arith, y, h))
        | inr n ↦ in_loop-Finds (ok s) (ground (arith, n, h))
      ]

  handle_connection-Finds :
      (event : Event) (s : Loop C) (b : Bytes)
      → find event.token s.read_caches ≡ some b
      → Finds (handle_connection accept next is_stop shuts_down answer event s)
  unfolding handle_connection
  handle_connection-Finds event s b cached =
      >>=-Finds (guard (ended fatal) event.is_registered) _ (guard-Finds event.is_registered)
        (λ u e.
          >>=-Finds (readable_if accept next is_stop shuts_down answer event s)
            (write_and_close accept next is_stop shuts_down answer event) readable_if-Finds
            (λ s' e. write_and_close-Finds event s'))
    where
      guard-Finds : (b : Bool) → Finds (guard (ended fatal) b)
      guard-Finds true h = absurd (cc h)
      guard-Finds false h = absurd (cc h)

      readable_if-Finds : Finds (readable_if accept next is_stop shuts_down answer event s)
      readable_if-Finds h = elim (Bool-cases event.is_readable) [
        | inl y ↦ handle_readable-Finds event s b cached (ground (arith, y, h))
        | inr n ↦ in_loop-Finds (ok s) (ground (arith, n, h))
      ]

  pub handle_event-Finds :
      (event : Event) (s : Loop C)
      → IsServed s
      → Finds (handle_event accept next is_stop shuts_down answer event s)
  unfolding handle_event
  handle_event-Finds event s i h = elim (Bool-cases (event.token == 0 && event.is_readable)) [
    | inl y ↦
        >>=-Finds (accept_all accept next event.fuel s)
          (is_served accept next is_stop shuts_down answer) (accept_all-Finds event.fuel s)
          (λ s' e p. absurd (cc p)) (ground (arith, y, h))
    | inr n ↦ if_connected-Finds (find event.token s.connections) refl (ground (arith, n, h))
  ]
    where
      if_connected-Finds :
          (o : Option Connection)
          → find event.token s.connections ≡ o
          → Finds (if_connected accept next is_stop shuts_down answer event s o)
      if_connected-Finds none e h = absurd (cc h)
      if_connected-Finds (some c) e h =
          let (b, cached) = i.cached event.token c e in handle_connection-Finds event s b cached h
