-- ===== src/Server/Requests/Threads.antt =====
-- src/daemon/jsonrpc/server.rs: the handler threads, of which there are never more than the maximum.
use mathlib.Core.List.{append_assoc}
use revaultd.Prelude.{
  ℕ, zero, suc, ◌≤◌, ◌<◌, ◌≡◌, ◌∙◌, refl, sym, ap, arith, Bool, Bool-cases, inl, inr, leb, Option,
  none, some, List, [], ◌∷◌, ◌++◌, length, Result, ok, err, subst,
}
use revaultd.Server.Stream.{Bytes, StreamError}
use revaultd.Server.Requests.{
  Next, call, partial, malformed, finished, Action, handled, spawned, joined, Handlers,
  max_handler_threads, join_oldest, make_room, spawn, dispatch, handle_next, handle_calls,
  read_handle_request,
}

module _ {C : Type 0} where
  -- The calls of one kind of action, the first one first.
  abbrev pub spawned_of : List (Action C) → List C
  spawned_of [] = []
  spawned_of (spawned c ∷ log) = spawned_of log ++ c ∷ []
  spawned_of (joined c ∷ log) = spawned_of log
  spawned_of (handled c ∷ log) = spawned_of log

  abbrev pub joined_of : List (Action C) → List C
  joined_of [] = []
  joined_of (spawned c ∷ log) = joined_of log
  joined_of (joined c ∷ log) = joined_of log ++ c ∷ []
  joined_of (handled c ∷ log) = joined_of log

  -- There are at most four threads, and each thread that was started is at work or was waited for, the
  -- oldest one first.
  pub record IsAccounted (h : Handlers C) : Type 0 where
    pub bounded : length h.threads ≤ max_handler_threads
    pub in_order : spawned_of h.log ≡ joined_of h.log ++ h.threads

  length-concat : (xs : List C) (x : C) → length (xs ++ x ∷ []) ≡ suc (length xs)
  length-concat [] x = refl
  length-concat (y ∷ xs) x = ap suc (length-concat xs x)

  pub join_oldest-IsAccounted :
      (threads : List C) (h : Handlers C)
      → h.threads ≡ threads
      → 0 < length threads
      → IsAccounted h
      → IsAccounted (join_oldest threads h)
        × (length (join_oldest threads h).threads < max_handler_threads)
  join_oldest-IsAccounted [] h e p a = absurd (omega (arith, p))
  join_oldest-IsAccounted (c ∷ cs) h e p a =
      let few : length (c ∷ cs) ≤ max_handler_threads =
        subst (λ ts. length ts ≤ max_handler_threads) {x = h.threads} {y = c ∷ cs} e a.bounded in
      (
        record {
          bounded = omega (arith, few);
          in_order =
              a.in_order
              ∙ ap (λ ts. joined_of h.log ++ ts) e
              ∙ sym (append_assoc (joined_of h.log) (c ∷ []) cs);
        },
        omega (arith, few),
      )

  make_room-IsAccounted :
      (h : Handlers C)
      → IsAccounted h
      → IsAccounted (make_room h) × (length (make_room h).threads < max_handler_threads)
  make_room-IsAccounted h a = elim (Bool-cases (leb max_handler_threads (length h.threads))) [
    | inl full ↦ rw full (join_oldest-IsAccounted h.threads h refl (ground (arith, full)) a)
    | inr room ↦ rw room (a, ground (arith, room))
  ]

  spawn-IsAccounted :
      (c : C) (h : Handlers C)
      → length h.threads < max_handler_threads
      → IsAccounted h
      → IsAccounted (spawn c h)
  spawn-IsAccounted c h room a = record {
    bounded = omega (arith, length-concat h.threads c, room);
    in_order =
        ap (λ cs. cs ++ c ∷ []) a.in_order ∙ append_assoc (joined_of h.log) h.threads (c ∷ []);
  }

  module _ (is_stop : C → Bool) where
    dispatch-IsAccounted :
        (c : C) (h : Handlers C) → IsAccounted h → IsAccounted (dispatch is_stop c h)
    unfolding dispatch
    dispatch-IsAccounted c h a = elim (Bool-cases (is_stop c)) [
      | inl stop ↦ rw stop (record { bounded = a.bounded; in_order = a.in_order })
      | inr other ↦
          let (a', room) = make_room-IsAccounted h a in
          rw other (spawn-IsAccounted c (make_room h) room a')
    ]

    -- what holds of the handlers that a handling leaves, if they were accounted for before
    abbrev Keeps : (Bytes → Handlers C → Result StreamError (Bytes × Handlers C)) → Type 0
    Keeps m =
        (cache left : Bytes) (h h' : Handlers C)
        → m cache h ≡ ok (left, h')
        → IsAccounted h
        → IsAccounted h'

    unchanged :
        (rest left : Bytes) (h h' : Handlers C) {r : Result StreamError (Bytes × Handlers C)}
        → r ≡ ok (rest, h)
        → r ≡ ok (left, h')
        → IsAccounted h
        → IsAccounted h'
    unchanged rest left h h' e d a = let same : h ≡ h' = cc in subst IsAccounted same a

    handle_next-IsAccounted :
        (again : Bytes → Handlers C → Result StreamError (Bytes × Handlers C)) (x : Next C)
        → Keeps again
        → (left : Bytes) (h h' : Handlers C) → handle_next is_stop again x h ≡ ok (left, h')
        → IsAccounted h
        → IsAccounted h'
    handle_next-IsAccounted again (call c rest) keeps left h h' e a =
        keeps rest left (dispatch is_stop c h) h' e (dispatch-IsAccounted c h a)
    handle_next-IsAccounted again (partial rest) keeps left h h' e a =
        unchanged rest left h h' refl e a
    handle_next-IsAccounted again malformed keeps left h h' e a = unchanged [] left h h' refl e a
    handle_next-IsAccounted again finished keeps left h h' e a = unchanged [] left h h' refl e a

    module _ (next : Bytes → Next C) where
      handle_calls-IsAccounted : (fuel : ℕ) → Keeps (handle_calls is_stop next fuel)
      unfolding handle_calls
      handle_calls-IsAccounted zero cache left h h' e a = absurd (cc e)
      handle_calls-IsAccounted (suc fuel) cache left h h' e a =
          handle_next-IsAccounted (handle_calls is_stop next fuel) (next cache)
            (handle_calls-IsAccounted fuel) left h h' e a

      -- However the calls arrive, `read_handle_request` keeps this: there are at most four handler
      -- threads, and the calls for which a thread was started are, in this order, those that were
      -- waited for and those at work. So no thread is lost, and the oldest one is waited for.
      pub read_handle_request-IsAccounted :
          (new : Result StreamError (Option Bytes)) (cache left : Bytes) (h h' : Handlers C)
          → read_handle_request is_stop next new cache h ≡ ok (left, h')
          → IsAccounted h
          → IsAccounted h'
      unfolding read_handle_request
      read_handle_request-IsAccounted (err x) cache left h h' e a = absurd (cc e)
      read_handle_request-IsAccounted (ok none) cache left h h' e a =
          unchanged cache left h h' refl e a
      read_handle_request-IsAccounted (ok (some new)) cache left h h' e a =
          handle_calls-IsAccounted (suc (length (cache ++ new))) (cache ++ new) left h h' e a
