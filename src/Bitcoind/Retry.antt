-- ===== src/Bitcoind/Retry.antt =====
-- src/daemon/bitcoind/interface.rs: a request that fails is sent again for a while.
pub mod Ends
use revaultd.Prelude.{
  ℕ, zero, suc, ◌+◌, ◌-◌, ltb, Bool, true, false, Option, none, some, List, [], ◌∷◌, ◌==◌,
  if◌then◌else◌, length, Result, ok, err, guard, ◌>>=◌, ◌>>◌,
}
use revaultd.Fault.{Fault, Res, server, still_running, batch_missing_response}

-- The errors of the transport that the code tells apart.
pub data HttpError : Type 0 where
  invalid_url socket_error http_parse_error other_http : HttpError

-- `jsonrpc::Error` of a request that was not answered. With an error of the transport stands what the
-- downcast to `HttpError` gives.
pub data SendError : Type 0 where
  transport : Option HttpError → SendError
  json : SendError
  other : SendError

-- `if now.duration_since(start) > limit { return Err(…) }`, then a sleep: the times are in milliseconds.
abbrev pub sleep_until : ℕ → ℕ → ℕ → Res ℕ
sleep_until limit pause elapsed = if ltb limit elapsed then err server else ok pause

-- How long it sleeps before the request is sent again, or the error.
unfoldable pub handle_error : SendError → ℕ → Res ℕ
handle_error (transport none) elapsed = sleep_until 45_000 1000 elapsed
handle_error (transport (some invalid_url)) elapsed = err server
handle_error (transport (some socket_error)) elapsed = err server
handle_error (transport (some http_parse_error)) elapsed = do
  first ← sleep_until 1000 1000 elapsed
  second ← sleep_until 45_000 1000 elapsed
  ok (first + second)
handle_error (transport (some other_http)) elapsed = sleep_until 45_000 1000 elapsed
handle_error json elapsed = sleep_until 1000 500 elapsed
handle_error other elapsed = err server

-- The n-th try takes some time, and a sleep may last longer than it was asked to.
pub record Times : Type 0 where
  pub took : ℕ → ℕ
  pub overslept : ℕ → ℕ

module _ {ℓ} {R : Type ℓ} (times : Times) (send : ℕ → Result SendError R) where
  abbrev pub or_again : (ℕ → Res R) → ℕ → ℕ → Result SendError R → Res R
  or_again again n now (ok resp) = ok resp
  or_again again n now (err e) =
      handle_error e now >>= (λ slept. again (now + slept + times.overslept n))

  -- The loop around `send_request` or `send_batch`, with the time since the start.
  unfoldable pub send_again : ℕ → ℕ → ℕ → Res R
  unfolding handle_error
  send_again zero n elapsed = err still_running
  send_again (suc fuel) n elapsed =
      or_again (send_again fuel (suc n)) n (elapsed + times.took n) (send n)

  -- An answer may be an error of the server.
  unfoldable pub make_request {κ} : {A : Type κ} → (R → Res A) → ℕ → Res A
  unfolding send_again
  make_request result fuel = send_again fuel 0 0 >>= result

-- `filter_map(|r| r).map(|resp| resp.result()).collect()`
unfoldable pub results {κ} : {A : Type κ} → List (Option (Res A)) → Res (List A)
results [] = ok []
results (none ∷ rs) = results rs
results (some r ∷ rs) = do a ← r; as_left ← results rs; ok (a ∷ as_left)

-- The batch of `reqs` requests must have as many answers.
unfoldable pub make_requests {κ} :
    {A : Type κ} → Times → (ℕ → Result SendError (List (Option (Res A)))) → ℕ → ℕ → Res (List A)
unfolding make_request results
make_requests times send reqs fuel =
    make_request times send results fuel
    >>= (λ res. guard batch_missing_response (length res == reqs) >> ok res)
