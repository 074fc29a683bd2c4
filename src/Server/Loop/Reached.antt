-- ===== src/Server/Loop/Reached.antt =====
-- src/daemon/jsonrpc/server.rs: the runs of `mio_loop`, by events and by the responses of the threads.
use revaultd.Prelude.{
  ℕ, ◌≡◌, ◌≢◌, ◌∙◌, refl, subst, arith, Bool, true, false, Bool-cases, inl, inr, ◌&&◌, Option, none,
  some, [], ◌∷◌, ◌++◌, ◌==◌, ok, err, >>=-eq-ok,
}
use revaultd.Server.Stream.{Bytes}
use revaultd.Server.Requests.{Next}
use revaultd.Server.Connections.{find, put}
use revaultd.Server.Loop.{
  Connection, Loop, AcceptAnswer, Event, missing_cache, accept_all, if_connected, is_served,
  handle_event,
}
use revaultd.Server.Loop.Served.{
  IsServed, Touches-refl, Touches-IsServed, put_connection-Touches, ok_cancel,
}
use revaultd.Server.Loop.Accepted.{accept_all-Leaves}
use revaultd.Server.Loop.Caches.{handle_event-Finds}
use revaultd.Server.Loop.Events.{IsStopped, Outcome, goes_on, stops, handle_connection-Outcome}

-- The variables before the first event.
abbrev pub at_start : {C : Type 0} → Loop C
at_start = record {
  unique_token = 1;
  accepts = 0;
  connections = [];
  read_caches = [];
  handlers = record { threads = []; log = [] };
  is_shutdown = false;
}

module _ {C : Type 0} (accept : ℕ → AcceptAnswer) (next : Bytes → Next C)
    (is_stop shuts_down : C → Bool) (answer : ℕ × C → Bytes) where
  -- A step of the server: it serves an event, or a thread pushes a response to a connection.
  pub data Step (s : Loop C) : Loop C → Type 0 where
    serves :
        (event : Event) {s' : Loop C}
        → handle_event accept next is_stop shuts_down answer event s ≡ ok (false, s')
        → Step s s'
    responds :
        (t : ℕ) (c : Connection) (resp : Bytes)
        → find t s.connections ≡ some c
        → Step s (record s {
          connections = put t (record c { resp_queue = c.resp_queue ++ resp ∷ [] }) s.connections;
        })

  pub data Reached : Loop C → Type 0 where
    start : Reached at_start
    later : {s s' : Loop C} → Reached s → Step s s' → Reached s'

  -- What an event leaves: the loop has returned, or it goes on with all served, and the connections of
  -- the other tokens are as before.
  abbrev Effect : ℕ → Loop C → Bool × Loop C → Type 0
  Effect t s (true, s') = IsStopped s'
  Effect t s (false, s') =
      IsServed s'
      × ((u : ℕ) (c : Connection)
          → u ≢ t
          → find u s.connections ≡ some c
          → (find u s'.connections ≡ some c) × (find u s'.read_caches ≡ find u s.read_caches))

  Outcome-Effect :
      (t : ℕ) (s : Loop C) (r : Bool × Loop C) → IsServed s → Outcome t s r → Effect t s r
  Outcome-Effect t s r i (stops stopped) = stopped
  Outcome-Effect t s r i (goes_on {s'} touches) = (
    Touches-IsServed t s s' touches i,
    λ u c n h. (touches.other_connections u n ∙ h, touches.other_caches u n),
  )

  handle_event-Effect :
      (event : Event) (s : Loop C) (r : Bool × Loop C)
      → IsServed s
      → handle_event accept next is_stop shuts_down answer event s ≡ ok r
      → Effect event.token s r
  unfolding handle_event
  handle_event-Effect event s r i e = elim (Bool-cases (event.token == 0 && event.is_readable)) [
    | inl y ↦
        let (s', e1, e2) =
          >>=-eq-ok (accept_all accept next event.fuel s)
            (is_served accept next is_stop shuts_down answer) (ground (arith, y, e)) in
        let (i', keeps) = accept_all-Leaves accept next event.fuel s s' e1 i in
        subst (Effect event.token s) (ok_cancel e2) ((i', λ u c n h. keeps u c h))
    | inr n ↦ connected-Effect (find event.token s.connections) (ground (arith, n, e))
  ]
    where
      connected-Effect :
          (o : Option Connection)
          → if_connected accept next is_stop shuts_down answer event s o ≡ ok r
          → Effect event.token s r
      connected-Effect none e =
          subst (Effect event.token s) (ok_cancel e)
            (Outcome-Effect event.token s (false, s) i (goes_on (Touches-refl event.token s)))
      connected-Effect (some c) e =
          Outcome-Effect event.token s r i
            (handle_connection-Outcome accept next is_stop shuts_down answer event s r i e)

  Reached-IsServed : {s : Loop C} → Reached s → IsServed s
  unfolding find
  Reached-IsServed start = record {
    positive = omega arith;
    fresh = λ t c h. absurd (cc h);
    cached = λ t c h. absurd (cc h);
    accounted = record { bounded = omega arith; in_order = refl };
  }
  Reached-IsServed (later {s} r (serves event e)) =
      (handle_event-Effect event s (false, _) (Reached-IsServed r) e).0
  Reached-IsServed (later {s} r (responds t c resp h)) =
      Touches-IsServed t s _ (put_connection-Touches t _ c s h) (Reached-IsServed r)

  -- From any state that `mio_loop` can reach, by events of any kind and responses of the threads at any
  -- time: where an event makes the loop return, the daemon is shut down, no connection is left, and
  -- every handler thread that was started was waited for, in the order of their starts.
  pub handle_event-stops :
      {s s' : Loop C} (event : Event)
      → Reached s
      → handle_event accept next is_stop shuts_down answer event s ≡ ok (true, s')
      → IsStopped s'
  handle_event-stops {s} {s'} event r e =
      handle_event-Effect event s (true, s') (Reached-IsServed r) e

  -- From any state that `mio_loop` can reach, an event after which the loop goes on leaves every
  -- connection of another token as it was, with its queue of responses, and its read cache: also a
  -- new connection does not take the place of one that is there.
  pub handle_event-apart :
      {s s' : Loop C} (event : Event) (u : ℕ) (c : Connection)
      → Reached s
      → handle_event accept next is_stop shuts_down answer event s ≡ ok (false, s')
      → u ≢ event.token
      → find u s.connections ≡ some c
      → (find u s'.connections ≡ some c) × (find u s'.read_caches ≡ find u s.read_caches)
  handle_event-apart {s} {s'} event u c r e n h =
      (handle_event-Effect event s (false, s') (Reached-IsServed r) e).1 u c n h

  -- In any state that `mio_loop` can reach, each connection has a token between the listener's and the
  -- next one and an entry in the map of the read caches, and the handler threads are accounted for; so
  -- no event, whichever it is, finds a connection without its read cache.
  pub handle_event-cached :
      {s : Loop C} (event : Event)
      → Reached s
      → IsServed s
        × (handle_event accept next is_stop shuts_down answer event s ≢ err missing_cache)
  handle_event-cached {s} event r =
      let i = Reached-IsServed r in
      (i, handle_event-Finds accept next is_stop shuts_down answer event s i)
