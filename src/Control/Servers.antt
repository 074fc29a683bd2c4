-- ===== src/Control/Servers.antt =====
-- src/daemon/control.rs: whether the servers can be reached.
use revaultd.Prelude.{ℕ, Bool, Option, none, some, List, [], ◌∷◌}
use revaultd.Control.Session.{connecting, Session, Net, Daemon}

pub record ServerStatus : Type 0 where
  pub host : ℕ
  pub reachable : Bool

module _ (servers : Net) where
  -- `KKTransport::connect(…).is_ok()`
  unfoldable pub server_status : ℕ → Session → ServerStatus × Session
  server_status host s =
      let log = connecting host ∷ s.log in
      (record { host = host; reachable = servers.connect log }, record s { log = log })

  unfoldable pub statuses : List ℕ → Session → List ServerStatus × Session
  unfolding server_status
  statuses [] s = ([], s)
  statuses (host ∷ hosts) s =
      let (status, s1) = server_status host s in
      let (rest, s2) = statuses hosts s1 in (status ∷ rest, s2)

  abbrev pub all_given : Option (List ℕ) → List ℕ
  all_given none = []
  all_given (some hosts) = hosts

  unfoldable pub coordinator_status : Daemon → Session → ServerStatus × Session
  unfolding server_status
  coordinator_status daemon = server_status daemon.coordinator_host

  unfoldable pub cosigners_status : Daemon → Session → List ServerStatus × Session
  unfolding statuses
  cosigners_status daemon = statuses (all_given daemon.cosigs)

  unfoldable pub watchtowers_status : Daemon → Session → List ServerStatus × Session
  unfolding statuses
  watchtowers_status daemon = statuses (all_given daemon.watchtowers)
