-- ===== src/Server/Loop/Tests.antt =====
-- A run of `mio_loop`, with a client that stops the daemon, and the theorems along it.
use revaultd.Prelude.{
  ℕ, zero, suc, ◌≡◌, ◌≢◌, refl, Bool, true, false, some, [], ◌∷◌, ◌==◌, ok, err, exists,
}
use revaultd.Server.Stream.{Bytes, ReadAnswer, got, would_block, WriteAnswer, wrote}
use revaultd.Server.Requests.{Next, call, finished, handled}
use revaultd.Server.Connections.{find, put, without}
use revaultd.Server.Loop.{
  Connection, Loop, AcceptAnswer, accepted, no_more, Event, missing_cache, handle_event, join_all,
}
use revaultd.Server.Loop.Served.{IsServed}
use revaultd.Server.Loop.Events.{IsStopped}
use revaultd.Server.Loop.Reached.{
  at_start, Reached, start, later, serves, handle_event-stops, handle_event-apart,
  handle_event-cached,
}

abbrev listener : ℕ → AcceptAnswer
listener zero = accepted true
listener (suc zero) = accepted true
listener n = no_more

-- Each byte is a call, and 9 is `stop`.
abbrev bytes : Bytes → Next ℕ
bytes [] = finished
bytes (c ∷ cs) = call c cs

abbrev is_nine : ℕ → Bool
is_nine c = c == 9

abbrev echo : ℕ × ℕ → Bytes
echo (t, c) = c ∷ []

abbrev once : ℕ → ℕ → ReadAnswer
once zero free = got (9 ∷ [])
once (suc n) free = would_block

abbrev whole : ℕ → Bytes → WriteAnswer
whole n [] = wrote 0
whole n (b ∷ bs) = wrote 1

-- A readable event of a token, which may be closed.
abbrev readable : ℕ → Bool → Event
readable t closed = record {
  token = t;
  is_readable = true;
  is_writable = false;
  is_read_closed = closed;
  is_error = false;
  is_registered = true;
  read = once;
  write = whole;
  fuel = 4;
}

abbrev idle : Connection
idle = record { resp_queue = []; stream = record { writes = 0; sent = [] } }

abbrev two : Loop ℕ
two = record {
  unique_token = 3;
  accepts = 3;
  connections = (2, idle) ∷ (1, idle) ∷ [];
  read_caches = (2, []) ∷ (1, []) ∷ [];
  handlers = record { threads = []; log = [] };
  is_shutdown = false;
}

abbrev stopping : Loop ℕ
stopping = record two {
  connections = (1, record idle { resp_queue = (9 ∷ []) ∷ [] }) ∷ (2, idle) ∷ [];
  read_caches = (1, []) ∷ (2, []) ∷ [];
  handlers = record { threads = []; log = handled (1, 9) ∷ [] };
  is_shutdown = true;
}

abbrev one_left : Loop ℕ
one_left = record stopping {
  connections = (1, record idle { resp_queue = (9 ∷ []) ∷ [] }) ∷ [];
  read_caches = (2, []) ∷ (1, []) ∷ [];
  handlers = record { threads = []; log = handled (2, 9) ∷ handled (1, 9) ∷ [] };
}

abbrev none_left : Loop ℕ
none_left = record one_left {
  connections = [];
  read_caches = (1, []) ∷ (2, []) ∷ [];
  handlers = record { threads = []; log = handled (1, 9) ∷ handled (2, 9) ∷ handled (1, 9) ∷ [] };
}

both_accepted :
    handle_event listener bytes is_nine is_nine echo (readable 0 false) at_start ≡ ok (false, two)
unfolding handle_event put
both_accepted = refl

stop_handled :
    handle_event listener bytes is_nine is_nine echo (readable 1 false) two ≡ ok (false, stopping)
unfolding handle_event find put exists
stop_handled = refl

second_closed :
    handle_event listener bytes is_nine is_nine echo (readable 2 true) stopping
    ≡ ok (false, one_left)
unfolding handle_event find without put
second_closed = refl

first_closed :
    handle_event listener bytes is_nine is_nine echo (readable 1 true) one_left
    ≡ ok (true, none_left)
unfolding handle_event find without put join_all
first_closed = refl

two-Reached : Reached listener bytes is_nine is_nine echo two
two-Reached = later start (serves (readable 0 false) both_accepted)

one_left-Reached : Reached listener bytes is_nine is_nine echo one_left
one_left-Reached =
    later (later two-Reached (serves (readable 1 false) stop_handled))
      (serves (readable 2 true) second_closed)

handle_event-stops_example : IsStopped none_left
handle_event-stops_example =
    handle_event-stops listener bytes is_nine is_nine echo (readable 1 true) one_left-Reached
      first_closed

handle_event-apart_example :
    (find 2 stopping.connections ≡ some idle)
    × (find 2 stopping.read_caches ≡ find 2 two.read_caches)
unfolding find
handle_event-apart_example =
    handle_event-apart listener bytes is_nine is_nine echo (readable 1 false) 2 idle two-Reached
      stop_handled (λ e. cc) refl

handle_event-cached_example :
    IsServed one_left
    × (handle_event listener bytes is_nine is_nine echo (readable 1 true) one_left
        ≢ err missing_cache)
handle_event-cached_example =
    handle_event-cached listener bytes is_nine is_nine echo (readable 1 true) one_left-Reached
