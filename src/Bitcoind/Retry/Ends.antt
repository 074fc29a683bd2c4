-- ===== src/Bitcoind/Retry/Ends.antt =====
-- src/daemon/bitcoind/interface.rs: how often a request is sent.
use revaultd.Prelude.{
  ℕ, zero, suc, ◌+◌, ◌*◌, ◌≤◌, ◌<◌, ◌≡◌, ◌≢◌, arith, ok, err, Result, none, some, Result-cases, inl,
  inr,
}
use revaultd.Fault.{Res, still_running}
use revaultd.Bitcoind.Retry.{
  SendError, transport, json, other, invalid_url, socket_error, http_parse_error, other_http,
  handle_error, Times, or_again, send_again, make_request,
}

-- A request is sent again only in the first 45 seconds, and after half a second at least.
handle_error-bounds :
    (e : SendError) (elapsed : ℕ) {slept : ℕ}
    → handle_error e elapsed ≡ ok slept
    → (elapsed ≤ 45_000) × (500 ≤ slept)
unfolding handle_error
handle_error-bounds (transport none) elapsed h = ground (arith, h)
handle_error-bounds (transport (some invalid_url)) elapsed h = absurd (cc h)
handle_error-bounds (transport (some socket_error)) elapsed h = absurd (cc h)
handle_error-bounds (transport (some http_parse_error)) elapsed h = ground (arith, h)
handle_error-bounds (transport (some other_http)) elapsed h = ground (arith, h)
handle_error-bounds json elapsed h = ground (arith, h)
handle_error-bounds other elapsed h = absurd (cc h)

handle_error-ne_running : (e : SendError) (elapsed : ℕ) → handle_error e elapsed ≢ err still_running
unfolding handle_error
handle_error-ne_running (transport none) elapsed h = ground (arith, h)
handle_error-ne_running (transport (some invalid_url)) elapsed h = cc
handle_error-ne_running (transport (some socket_error)) elapsed h = cc
handle_error-ne_running (transport (some http_parse_error)) elapsed h = ground (arith, h)
handle_error-ne_running (transport (some other_http)) elapsed h = ground (arith, h)
handle_error-ne_running json elapsed h = ground (arith, h)
handle_error-ne_running other elapsed h = cc

module _ {R : Type 0} (times : Times) (send : ℕ → Result SendError R) where
  -- the error of a try, or a shorter loop after it
  or_again-ends :
      (again : ℕ → Res R) (n now : ℕ) (r : Result SendError R)
      → ((slept : ℕ)
          → now ≤ 45_000
          → 500 ≤ slept
          → again (now + slept + times.overslept n) ≢ err still_running)
      → or_again times send again n now r ≢ err still_running
  or_again-ends again n now (ok resp) ends h = cc
  or_again-ends again n now (err e) ends h = elim (Result-cases (handle_error e now)) [
    | inl (slept, fine) ↦
        let (early, long) = handle_error-bounds e now fine in
        ends slept early long (ground (arith, fine, h))
    | inr (fault, refused) ↦ handle_error-ne_running e now (ground (arith, refused, h))
  ]

  send_again-ends :
      (fuel n elapsed : ℕ)
      → 45_500 < elapsed + 500 * fuel
      → 0 < fuel
      → send_again times send fuel n elapsed ≢ err still_running
  unfolding send_again
  send_again-ends zero n elapsed room p = absurd (omega (arith, p))
  send_again-ends (suc fuel) n elapsed room p =
      or_again-ends (send_again times send fuel (suc n)) n (elapsed + times.took n) (send n)
        (λ slept early long.
          send_again-ends fuel (suc n) (elapsed + times.took n + slept + times.overslept n)
            (omega (arith, room, long)) (omega (arith, room, early)))

  -- However long the tries and the sleeps take, and whatever the errors are: after 92 tries at most, a
  -- request was answered or has failed.
  pub make_request-ends :
      {A : Type 0} (result : R → Res A) (fuel : ℕ)
      → 92 ≤ fuel
      → ((r : R) → result r ≢ err still_running)
      → make_request times send result fuel ≢ err still_running
  unfolding make_request
  make_request-ends result fuel enough fine h =
      elim (Result-cases (send_again times send fuel 0 0)) [
        | inl (resp, e) ↦ fine resp (ground (arith, e, h))
        | inr (fault, e) ↦
            send_again-ends fuel 0 0 (omega (arith, enough)) (omega (arith, enough))
              (ground (arith, e, h))
      ]
