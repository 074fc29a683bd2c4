-- ===== src/Server/Tests.antt =====
-- Runs of the server on small streams, and the theorems at such inputs.
use revaultd.Prelude.{
  ℕ, zero, suc, ◌≤◌, ◌<◌, ◌≡◌, ◌≢◌, refl, ap, arith, Bool, some, [], ◌∷◌, ◌++◌, ◌==◌, ltb,
  if◌then◌else◌, length, ok, err,
}
use revaultd.Server.Stream.{
  Bytes, still_running, ReadAnswer, got, would_block, interrupted, read_bytes_from_stream,
  WriteAnswer, wrote, not_now, Socket, write_responses,
}
use revaultd.Server.Stream.Sent.{write_responses-all, write_responses-spins}
use revaultd.Server.Stream.Received.{
  Fits, Returns, read_bytes_from_stream-Returns, read_bytes_from_stream-ends,
}
use revaultd.Server.Requests.{
  Next, call, partial, malformed, finished, spawned, joined, Handlers, read_handle_request,
}
use revaultd.Server.Requests.Threads.{IsAccounted, read_handle_request-IsAccounted}
use revaultd.Server.Requests.Chunks.{
  IsStream, IsWellFormed, at_call, at_end, handle_pieces, handle_pieces-joined,
}

-- A stream that sends three bytes, an interruption, a newline, and then nothing.
abbrev peer : ℕ → ℕ → ReadAnswer
peer zero free = if ltb free 3 then would_block else got (7 ∷ 10 ∷ 8 ∷ [])
peer (suc zero) free = interrupted
peer (suc (suc zero)) free = if ltb free 1 then would_block else got (10 ∷ [])
peer n free = would_block

peer-Fits : Fits peer
peer-Fits zero free bytes h = ground (arith, h)
peer-Fits (suc zero) free bytes h = absurd (cc h)
peer-Fits (suc (suc zero)) free bytes h = ground (arith, h)
peer-Fits (suc (suc (suc n))) free bytes h = absurd (cc h)

peer_read : read_bytes_from_stream peer 9 ≡ ok (some (7 ∷ 10 ∷ 8 ∷ []))
unfolding read_bytes_from_stream
peer_read = refl

read_bytes_from_stream-Returns_example : Returns peer (7 ∷ 10 ∷ 8 ∷ [])
read_bytes_from_stream-Returns_example = read_bytes_from_stream-Returns peer 9 peer-Fits peer_read

read_bytes_from_stream-ends_example : read_bytes_from_stream peer 4 ≢ err still_running
read_bytes_from_stream-ends_example =
    read_bytes_from_stream-ends peer 3 4 (λ free. (λ b bs h. cc, λ h. cc)) (omega arith)

-- A stream that takes two bytes at a time.
abbrev slow : ℕ → Bytes → WriteAnswer
slow n [] = wrote 0
slow n (b ∷ []) = wrote 1
slow n (b ∷ c ∷ bs) = wrote 2

slow-Takes :
    (n : ℕ) (left : Bytes)
    → (k : ℕ) × (slow n left ≡ wrote k) × (k ≤ length left) × (left ≢ [] → 0 < k)
slow-Takes n [] = (0, refl, omega arith, λ h. absurd (h refl))
slow-Takes n (b ∷ []) = (1, refl, omega arith, λ h. omega arith)
slow-Takes n (b ∷ c ∷ bs) = (2, refl, omega arith, λ h. omega arith)

abbrev fresh : Socket
fresh = record { writes = 0; sent = [] }

write_responses-all_example :
    (s' : Socket) × (write_responses slow 20 ((1 ∷ 2 ∷ 3 ∷ []) ∷ (4 ∷ []) ∷ []) fresh
      ≡ (ok tt, ([], s')))
    × (s'.sent ≡ 1 ∷ 2 ∷ 3 ∷ 4 ∷ [])
write_responses-all_example =
    write_responses-all slow slow-Takes 20 ((1 ∷ 2 ∷ 3 ∷ []) ∷ (4 ∷ []) ∷ []) fresh (omega arith)

write_responses-spins_example :
    (write_responses (λ n left. not_now) 1000 ((1 ∷ []) ∷ []) fresh).0 ≡ err still_running
write_responses-spins_example =
    write_responses-spins (λ n left. not_now) 1000 (1 ∷ []) [] fresh (λ n left. refl)

-- A format in which a call is a byte and its successor, after any number of zeros.
text : Bytes → Next ℕ
text [] = finished
text (zero ∷ bytes) = text bytes
text (suc b ∷ []) = partial (suc b ∷ [])
text (suc b ∷ c ∷ bytes) = if c == b then call c bytes else malformed

text-IsStream : IsStream text
unfolding text
text-IsStream = record {
  call-append = grows;
  call_shorter = shorter;
  partial-append = later;
  malformed-append = broken;
  finished-append = blank;
}
  where
    grows : (a b r : Bytes) (c : ℕ) → text a ≡ call c r → text (a ++ b) ≡ call c (r ++ b)
    grows [] b r c h = cc
    grows (zero ∷ a) b r c h = grows a b r c h
    grows (suc d ∷ []) b r c h = cc
    grows (suc d ∷ e ∷ a) b r c h = ground (arith, h)

    shorter : (a r : Bytes) (c : ℕ) → text a ≡ call c r → length r < length a
    shorter [] r c h = cc
    shorter (zero ∷ a) r c h = omega (arith, shorter a r c h)
    shorter (suc d ∷ []) r c h = cc
    shorter (suc d ∷ e ∷ a) r c h = ground (arith, h)

    later : (a b r : Bytes) → text a ≡ partial r → text (a ++ b) ≡ text (r ++ b)
    later [] b r h = absurd (cc h)
    later (zero ∷ a) b r h = later a b r h
    later (suc d ∷ []) b r h =
        let same : suc d ∷ [] ≡ r = cc in ap (λ bytes. text (bytes ++ b)) same
    later (suc d ∷ e ∷ a) b r h = absurd (ground (arith, h))

    broken : (a b : Bytes) → text a ≡ malformed → text (a ++ b) ≡ malformed
    broken [] b h = cc
    broken (zero ∷ a) b h = broken a b h
    broken (suc d ∷ []) b h = cc
    broken (suc d ∷ e ∷ a) b h = ground (arith, h)

    blank : (a b : Bytes) → text a ≡ finished → text (a ++ b) ≡ text b
    blank [] b h = refl
    blank (zero ∷ a) b h = blank a b h
    blank (suc d ∷ []) b h = cc
    blank (suc d ∷ e ∷ a) b h = absurd (ground (arith, h))

abbrev none_yet : Handlers ℕ
none_yet = record { threads = []; log = [] }

abbrev is_stop : ℕ → Bool
is_stop c = c == 9

-- Two calls, of which the second one is cut in two.
well_formed : IsWellFormed text ([] ++ (1 ∷ 0 ∷ 0 ∷ 4 ∷ []) ++ ((3 ∷ []) ++ []))
unfolding text
well_formed = at_call 0 (0 ∷ 4 ∷ 3 ∷ []) refl (at_call 3 [] refl (at_end refl))

handle_pieces-joined_example :
    handle_pieces text is_stop ((1 ∷ 0 ∷ 0 ∷ 4 ∷ []) ∷ (3 ∷ []) ∷ []) [] none_yet
    ≡ read_handle_request is_stop text (ok (some (1 ∷ 0 ∷ 0 ∷ 4 ∷ 3 ∷ []))) [] none_yet
handle_pieces-joined_example =
    handle_pieces-joined text is_stop text-IsStream (1 ∷ 0 ∷ 0 ∷ 4 ∷ []) ((3 ∷ []) ∷ []) [] none_yet
      well_formed

-- Five calls: the thread of the first one is waited for.
abbrev five : Bytes
five = 2 ∷ 1 ∷ 3 ∷ 2 ∷ 4 ∷ 3 ∷ 5 ∷ 4 ∷ 6 ∷ 5 ∷ []

abbrev busy : Handlers ℕ
busy = record {
  threads = 2 ∷ 3 ∷ 4 ∷ 5 ∷ [];
  log = spawned 5 ∷ joined 1 ∷ spawned 4 ∷ spawned 3 ∷ spawned 2 ∷ spawned 1 ∷ [];
}

five_handled : read_handle_request is_stop text (ok (some five)) [] none_yet ≡ ok ([], busy)
unfolding read_handle_request text
five_handled = refl

read_handle_request-IsAccounted_example : IsAccounted busy
read_handle_request-IsAccounted_example =
    read_handle_request-IsAccounted is_stop text (ok (some five)) [] [] none_yet busy five_handled
      (record { bounded = omega arith; in_order = refl })
