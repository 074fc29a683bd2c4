-- ===== src/Sigfetcher/Rounds.antt =====
-- src/daemon/sigfetcher.rs: the loop of the signature fetcher's thread.
use revaultd.Prelude.{ℕ, zero, suc, Bool, leb, if◌then◌else◌, Result, ok, err}
use revaultd.Database.Schema.{Psbt}
use revaultd.Control.Signatures.{Secp}
use revaultd.Prelude.Stateful.{return}
use revaultd.Control.Session.{Refusal, Command, Net, Daemon, Session}
use revaultd.Control.Coordinator.{Txs}
use revaultd.Sigfetcher.{poll_signatures}

-- What `try_recv` finds.
pub data Received : Type 0 where
  shutdown empty disconnected : Received

pub data SignatureFetcherError : Type 0 where
  channel_disconnected panicked still_running : SignatureFetcherError

-- What the n-th round finds: a message, and the time since the last poll, in milliseconds.
pub record Round : Type 0 where
  pub received : Received
  pub elapsed : ℕ

module _ (secp : Secp) (is_finalizable : Psbt → Bool) (servers : Net) (daemon : Daemon)
    (txs : Txs) where
  abbrev pub poll_if : ℕ → Round → Command (Unit {0})
  poll_if poll_interval round =
      if leb poll_interval round.elapsed
      then poll_signatures secp is_finalizable servers daemon txs
      else return tt

  abbrev Ending : Type 0
  Ending = Result SignatureFetcherError (Unit {0}) × Session

  -- Only a panic is left of a poll's failures.
  abbrev polled : Result Refusal (Unit {0}) × Session → (Session → Ending) → Ending
  polled (ok _, s) rest = rest s
  polled (err _, s) rest = (err panicked, s)

  -- The loop, with fuel for each round; it ends at a message of shutdown or without a channel.
  unfoldable pub signature_fetcher_loop :
      ℕ → (ℕ → Round) → ℕ → ℕ → Session → Result SignatureFetcherError (Unit {0}) × Session
  unfolding poll_signatures
  signature_fetcher_loop poll_interval rounds zero n s = (err still_running, s)
  signature_fetcher_loop poll_interval rounds (suc fuel) n s = elim (rounds n).received [
    | shutdown ↦ (ok tt, s)
    | disconnected ↦ (err channel_disconnected, s)
    | empty ↦
        polled (poll_if poll_interval (rounds n) s)
          (signature_fetcher_loop poll_interval rounds fuel (suc n))
  ]
