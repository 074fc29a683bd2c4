-- ===== src/Server/Requests/Chunks.antt =====
-- src/daemon/jsonrpc/server.rs: the calls that are handled do not depend on the pieces in which their
-- bytes arrive.
use mathlib.Core.List.{append_assoc, append-nil}
use revaultd.Prelude.{
  ℕ, zero, suc, ◌<◌, ◌≡◌, ◌≢◌, ◌∙◌, refl, sym, ap, arith, Bool, some, List, [], ◌∷◌, ◌++◌, length,
  Result, ok, err, ◌>>=◌, subst,
}
use revaultd.Server.Stream.{Bytes, StreamError}
use revaultd.Server.Requests.{
  Next, call, partial, malformed, finished, Handlers, dispatch, handle_next, handle_calls,
  read_handle_request,
}

module _ {C : Type 0} (next : Bytes → Next C) where
  -- serde_json's stream of values that delimit themselves, as calls do: what it has read stays when
  -- more bytes follow, and a value takes bytes. The bytes before a partial value, and those in which
  -- there is no value, are blanks.
  pub record IsStream : Type 0 where
    pub call-append : (a b r : Bytes) (c : C) → next a ≡ call c r → next (a ++ b) ≡ call c (r ++ b)
    pub call_shorter : (a r : Bytes) (c : C) → next a ≡ call c r → length r < length a
    pub partial-append : (a b r : Bytes) → next a ≡ partial r → next (a ++ b) ≡ next (r ++ b)
    pub malformed-append : (a b : Bytes) → next a ≡ malformed → next (a ++ b) ≡ malformed
    pub finished-append : (a b : Bytes) → next a ≡ finished → next (a ++ b) ≡ next b

  -- The stream meets no error but the end of the bytes.
  pub data IsWellFormed : Bytes → Type 0 where
    at_call : {a : Bytes} (c : C) (r : Bytes) → next a ≡ call c r → IsWellFormed r → IsWellFormed a
    at_partial : {a : Bytes} (r : Bytes) → next a ≡ partial r → IsWellFormed a
    at_end : {a : Bytes} → next a ≡ finished → IsWellFormed a

  IsWellFormed-call :
      {a : Bytes} (c : C) (r : Bytes) → next a ≡ call c r → IsWellFormed a → IsWellFormed r
  IsWellFormed-call c r e (at_call c' r' e' w) = let same : r' ≡ r = cc in subst IsWellFormed same w
  IsWellFormed-call c r e (at_partial r' e') = absurd (cc)
  IsWellFormed-call c r e (at_end e') = absurd (cc)

  IsWellFormed-eq : {a b : Bytes} → next a ≡ next b → IsWellFormed a → IsWellFormed b
  IsWellFormed-eq e (at_call c r e' w) = at_call c r (sym e ∙ e') w
  IsWellFormed-eq e (at_partial r e') = at_partial r (sym e ∙ e')
  IsWellFormed-eq e (at_end e') = at_end (sym e ∙ e')

  not_malformed : {a : Bytes} → IsWellFormed a → next a ≢ malformed
  not_malformed (at_call c r e w) h = cc
  not_malformed (at_partial r e) h = cc
  not_malformed (at_end e) h = cc

  module _ (is_stop : C → Bool) where
    abbrev handle : ℕ → Bytes → Handlers C → Result StreamError (Bytes × Handlers C)
    handle = handle_calls is_stop next

    handle-eq :
        (f : ℕ) (a : Bytes) (x : Next C) (h : Handlers C)
        → next a ≡ x
        → handle (suc f) a h ≡ handle_next is_stop (handle f) x h
    unfolding handle_calls
    handle-eq f a x h e = ap (λ y. handle_next is_stop (handle f) y h) e

    -- Two caches of which the stream gives the same next are handled alike, with enough fuel.
    handle-same :
        IsStream
        → (f g : ℕ) (a b : Bytes) (x : Next C) (h : Handlers C) → next a ≡ x
        → next b ≡ x
        → length a < f
        → length b < g
        → handle f a h ≡ handle g b h
    handle-same laws zero g a b x h e e' p q = absurd (omega (arith, p))
    handle-same laws (suc f) zero a b x h e e' p q = absurd (omega (arith, q))
    handle-same laws (suc f) (suc g) a b (call c r) h e e' p q =
        handle-eq f a (call c r) h e
        ∙ handle-same laws f g r r (next r) (dispatch is_stop c h) refl refl
            (omega (arith, p, laws.call_shorter a r c e))
            (omega (arith, q, laws.call_shorter b r c e'))
        ∙ sym (handle-eq g b (call c r) h e')
    handle-same laws (suc f) (suc g) a b (partial r) h e e' p q =
        handle-eq f a (partial r) h e ∙ sym (handle-eq g b (partial r) h e')
    handle-same laws (suc f) (suc g) a b malformed h e e' p q =
        handle-eq f a malformed h e ∙ sym (handle-eq g b malformed h e')
    handle-same laws (suc f) (suc g) a b finished h e e' p q =
        handle-eq f a finished h e ∙ sym (handle-eq g b finished h e')

    -- The first call of a cache, and the rest with the fuel that is left.
    handle-call :
        IsStream
        → (g : ℕ) (a r : Bytes) (c : C) (h : Handlers C) → next a ≡ call c r
        → length a < g
        → (g' : ℕ) × (length r < g') × (handle g a h ≡ handle g' r (dispatch is_stop c h))
    handle-call laws zero a r c h e q = absurd (omega (arith, q))
    handle-call laws (suc g) a r c h e q =
        (g, omega (arith, q, laws.call_shorter a r c e), handle-eq g a (call c r) h e)

    -- What is left of a first piece, followed by a second one, goes on as both pieces at once.
    abbrev GoesOn : Bytes → Bytes → Handlers C → Bytes → Handlers C → Type 0
    GoesOn a b h r h1 =
        IsWellFormed (r ++ b)
        × ((f g : ℕ)
            → length (r ++ b) < f
            → length (a ++ b) < g
            → handle f (r ++ b) h1 ≡ handle g (a ++ b) h)

    handle_first :
        IsStream
        → (f : ℕ) (a b : Bytes) (x : Next C) (h : Handlers C) → next a ≡ x
        → length a < f
        → IsWellFormed (a ++ b)
        → (r : Bytes) × (h1 : Handlers C) × (handle f a h ≡ ok (r, h1)) × GoesOn a b h r h1
    handle_first laws zero a b x h e p w = absurd (omega (arith, p))
    handle_first laws (suc f) a b (call c r0) h e p w =
        let e1 = laws.call-append a b r0 c e in
        let (r, h1, e2, (w', same)) =
          handle_first laws f r0 b (next r0) (dispatch is_stop c h) refl
            (omega (arith, p, laws.call_shorter a r0 c e)) (IsWellFormed-call c (r0 ++ b) e1 w) in
        (
          r,
          h1,
          handle-eq f a (call c r0) h e ∙ e2,
          (
            w',
            λ f' g' p' q'.
                let (g0, room, e3) = handle-call laws g' (a ++ b) (r0 ++ b) c h e1 q' in
                same f' g0 p' room ∙ sym e3,
          ),
        )
    handle_first laws (suc f) a b (partial r) h e p w =
        let e1 = laws.partial-append a b r e in
        (
          r,
          h,
          handle-eq f a (partial r) h e,
          (
            IsWellFormed-eq e1 w,
            λ f' g' p' q'. handle-same laws f' g' (r ++ b) (a ++ b) (next (r ++ b)) h refl e1 p' q',
          ),
        )
    handle_first laws (suc f) a b malformed h e p w =
        absurd (not_malformed w (laws.malformed-append a b e))
    handle_first laws (suc f) a b finished h e p w =
        let e1 = laws.finished-append a b e in
        (
          [],
          h,
          handle-eq f a finished h e,
          (
            IsWellFormed-eq e1 w,
            λ f' g' p' q'. handle-same laws f' g' b (a ++ b) (next b) h refl e1 p' q',
          ),
        )

    -- The handling of pieces as they are read, one after the other.
    abbrev pub handle_pieces :
        List Bytes → Bytes → Handlers C → Result StreamError (Bytes × Handlers C)
    handle_pieces [] cache h = ok (cache, h)
    handle_pieces (new ∷ news) cache h =
        read_handle_request is_stop next (ok (some new)) cache h
        >>= (λ left. handle_pieces news left.0 left.1)

    abbrev at_once : Bytes → Handlers C → Result StreamError (Bytes × Handlers C)
    at_once bytes = handle (suc (length bytes)) bytes

    read_handle_request_lem :
        (new cache : Bytes) (h : Handlers C)
        → read_handle_request is_stop next (ok (some new)) cache h ≡ at_once (cache ++ new) h
    unfolding read_handle_request
    read_handle_request_lem new cache h = refl

    bind_ok :
        (m : Result StreamError (Bytes × Handlers C)) → (m >>= (λ left. ok (left.0, left.1))) ≡ m
    bind_ok (ok (r, h)) = refl
    bind_ok (err e) = refl

    abbrev pub joined_bytes : List Bytes → Bytes
    joined_bytes [] = []
    joined_bytes (new ∷ news) = new ++ joined_bytes news

    -- If the bytes that were left and the ones that arrive are calls, the last one perhaps without its
    -- end, then the calls that are handled, the threads and the bytes that are left do not depend on
    -- the pieces in which the bytes are read: they are as if the bytes had been read at once.
    pub handle_pieces-joined :
        IsStream
        → (new : Bytes) (news : List Bytes) (cache : Bytes) (h : Handlers C)
        → IsWellFormed (cache ++ new ++ joined_bytes news)
        → handle_pieces (new ∷ news) cache h
          ≡ read_handle_request is_stop next (ok (some (new ++ joined_bytes news))) cache h
    handle_pieces-joined laws new [] cache h w =
        bind_ok (read_handle_request is_stop next (ok (some new)) cache h)
        ∙ ap (λ bs. read_handle_request is_stop next (ok (some bs)) cache h) (sym (append-nil new))
    handle_pieces-joined laws new (n2 ∷ news) cache h w =
        let rest = n2 ++ joined_bytes news in
        let (r, h1, e, (w', same)) =
          handle_first laws (suc (length (cache ++ new))) (cache ++ new) rest (next (cache ++ new))
            h refl (omega arith) w in
        ap (λ m. m >>= (λ left. handle_pieces (n2 ∷ news) left.0 left.1))
          (read_handle_request_lem new cache h ∙ e)
        ∙ handle_pieces-joined laws n2 news r h1
            (subst IsWellFormed (sym (append_assoc r n2 (joined_bytes news))) w')
        ∙ read_handle_request_lem rest r h1
        ∙ same _ _ (omega arith) (omega arith)
        ∙ ap (λ bs. at_once bs h) (append_assoc cache new rest)
        ∙ sym (read_handle_request_lem (new ++ rest) cache h)
