-- ===== src/Server/Loop/Events.antt =====
-- src/daemon/jsonrpc/server.rs: what an event does to the variables of `mio_loop`.
use revaultd.Prelude.{
  ℕ, ◌≡◌, refl, subst, arith, Bool, true, false, Bool-cases, inl, inr, ◌&&◌, ◌||◌, List, [], ◌∷◌,
  ok, guard-eq-ok, >>=-eq-ok,
}
use revaultd.Server.Stream.{Bytes, fatal}
use revaultd.Server.Requests.{Next, Handlers}
use revaultd.Server.Requests.Threads.{IsAccounted, join_oldest-IsAccounted}
use revaultd.Server.Connections.{without}
use revaultd.Server.Loop.{
  Connection, Loop, AcceptAnswer, Event, LoopError, ended, join_all, is_empty, dropped, readable_if,
  writable_if, close_if, write_and_close, handle_connection,
}
use revaultd.Server.Loop.Served.{
  IsServed, Touches, Touches-refl, Touches-trans, dropped_connection-Touches, ok_cancel,
  handle_readable-Touches, handle_writable-Touches,
}

join_all-IsAccounted :
    {C : Type 0} (cs : List C) (h : Handlers C)
    → h.threads ≡ cs
    → IsAccounted h
    → IsAccounted (join_all cs h) × ((join_all cs h).threads ≡ [])
unfolding join_all
join_all-IsAccounted [] h e a = (a, e)
join_all-IsAccounted (c ∷ cs) h e a =
    let (a', room) = join_oldest-IsAccounted (c ∷ cs) h e (omega arith) a in
    join_all-IsAccounted cs _ refl a'

-- The loop has returned: the daemon is shut down, no connection is left and no thread is at work.
pub record IsStopped {C : Type 0} (s : Loop C) : Type 0 where
  pub was_shutdown : s.is_shutdown ≡ true
  pub no_connection : s.connections ≡ []
  pub no_thread : s.handlers.threads ≡ []
  pub all_accounted : IsAccounted s.handlers

-- What an event leaves: the loop goes on and is as before but for the connection of the event, or it
-- has returned.
pub data Outcome {C : Type 0} (t : ℕ) (s : Loop C) : Bool × Loop C → Type 0 where
  goes_on : {s' : Loop C} → Touches t s s' → Outcome t s (false, s')
  stops : {s' : Loop C} → IsStopped s' → Outcome t s (true, s')

module _ {C : Type 0} (accept : ℕ → AcceptAnswer) (next : Bytes → Next C)
    (is_stop shuts_down : C → Bool) (answer : ℕ × C → Bytes) where
  readable_if-Touches :
      (event : Event) (s s' : Loop C)
      → readable_if accept next is_stop shuts_down answer event s ≡ ok s'
      → Touches event.token s s'
  readable_if-Touches event s s' e = elim (Bool-cases event.is_readable) [
    | inl y ↦
        handle_readable-Touches accept next is_stop shuts_down answer event s s'
          (ground (arith, y, e))
    | inr n ↦
        subst (Touches event.token s) (ok_cancel {E = LoopError} (ground (arith, n, e)))
          (Touches-refl event.token s)
  ]

  writable_if-Touches :
      (event : Event) (s s' : Loop C)
      → writable_if accept next is_stop shuts_down answer event s ≡ ok s'
      → Touches event.token s s'
  writable_if-Touches event s s' e = elim (Bool-cases event.is_writable) [
    | inl y ↦
        handle_writable-Touches accept next is_stop shuts_down answer event s s'
          (ground (arith, y, e))
    | inr n ↦
        subst (Touches event.token s) (ok_cancel {E = LoopError} (ground (arith, n, e)))
          (Touches-refl event.token s)
  ]

  is_empty-eq :
      (cs : List (ℕ × Connection))
      → is_empty accept next is_stop shuts_down answer cs ≡ true
      → cs ≡ []
  is_empty-eq [] h = refl
  is_empty-eq (c ∷ cs) h = absurd (cc h)

  dropped-Outcome :
      (t : ℕ) (s : Loop C)
      → IsAccounted s.handlers
      → Outcome t s (dropped accept next is_stop shuts_down answer t s)
  dropped-Outcome t s a =
      elim (Bool-cases (
        s.is_shutdown
        && is_empty accept next is_stop shuts_down answer (without t s.connections))) [
          | inl y ↦ rw y (
              stops (record {
                was_shutdown = ground (arith, y);
                no_connection = is_empty-eq (without t s.connections) (ground (arith, y));
                no_thread = (join_all-IsAccounted s.handlers.threads s.handlers refl a).1;
                all_accounted = (join_all-IsAccounted s.handlers.threads s.handlers refl a).0;
              }))
          | inr n ↦ rw n (goes_on (dropped_connection-Touches t s))
        ]

  Outcome-after :
      {t : ℕ} {s s' : Loop C} {r : Bool × Loop C} → Touches t s s' → Outcome t s' r → Outcome t s r
  Outcome-after touches (goes_on later) = goes_on (Touches-trans touches later)
  Outcome-after touches (stops stopped) = stops stopped

  close_if-Outcome :
      (event : Event) (s : Loop C)
      → IsAccounted s.handlers
      → Outcome event.token s (close_if accept next is_stop shuts_down answer event s)
  close_if-Outcome event s a = elim (Bool-cases (event.is_read_closed || event.is_error)) [
    | inl y ↦ rw y (dropped-Outcome event.token s a)
    | inr n ↦ rw n (goes_on (Touches-refl event.token s))
  ]

  pub handle_connection-Outcome :
      (event : Event) (s : Loop C) (r : Bool × Loop C)
      → IsServed s
      → handle_connection accept next is_stop shuts_down answer event s ≡ ok r
      → Outcome event.token s r
  unfolding handle_connection
  handle_connection-Outcome event s r i e =
      let (_, e0) = guard-eq-ok (ended fatal) event.is_registered _ e in
      let (s1, e1, e2) =
        >>=-eq-ok (readable_if accept next is_stop shuts_down answer event s)
          (write_and_close accept next is_stop shuts_down answer event) e0 in
      let (s2, e3, e4) =
        >>=-eq-ok (writable_if accept next is_stop shuts_down answer event s1)
          (λ s'. ok (close_if accept next is_stop shuts_down answer event s')) e2 in
      let touches =
        Touches-trans (readable_if-Touches event s s1 e1) (writable_if-Touches event s1 s2 e3) in
      Outcome-after touches (
        subst (Outcome event.token s2) (ok_cancel e4)
          (close_if-Outcome event s2 (touches.keeps_accounted i.accounted)))
