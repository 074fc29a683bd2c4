-- ===== src/Server/Loop/Served.antt =====
-- src/daemon/jsonrpc/server.rs: what each event leaves of the tables of `mio_loop`.
use revaultd.Prelude.{
  ℕ, ◌<◌, ◌≡◌, ◌≢◌, ◌⊎◌, ◌∙◌, refl, sym, subst, arith, Bool, Bool-cases, inl, inr, Option, none,
  some, List, map, ◌==◌, Result, ok, err, >>=-eq-ok, ok_or-eq-ok,
}
use revaultd.Server.Stream.{Bytes, StreamError, Socket, write_responses, read_bytes_from_stream}
use revaultd.Server.Requests.{Next, Handlers, read_handle_request}
use revaultd.Server.Requests.Threads.{IsAccounted, read_handle_request-IsAccounted}
use revaultd.Server.Connections.{
  find, without, put, find-put_same, find-put_other, find-without_same, find-without_other,
}
use revaultd.Server.Loop.{
  Connection, Loop, AcceptAnswer, Event, missing_cache, in_loop, tagged, handled_of, new_actions,
  pushed, read_calls, with_read, parse_on, write_to, handle_readable, written, handle_writable,
}

-- Every connection has a token below the next one, and an entry in the read cache; and the handler
-- threads are accounted for.
pub record IsServed {C : Type 0} (s : Loop C) : Type 0 where
  pub positive : 0 < s.unique_token
  pub fresh :
      (t : ℕ) (c : Connection) → find t s.connections ≡ some c → (0 < t) × (t < s.unique_token)
  pub cached :
      (t : ℕ) (c : Connection)
      → find t s.connections ≡ some c
      → (b : Bytes) × (find t s.read_caches ≡ some b)
  pub accounted : IsAccounted s.handlers

-- A table of which the entries for the other tokens are those of another one.
abbrev pub Elsewhere {ℓ} : {V : Type ℓ} → ℕ → List (ℕ × V) → List (ℕ × V) → Type ℓ
Elsewhere t m m' = (u : ℕ) → u ≢ t → find u m' ≡ find u m

-- What an event of one connection does to the variables: the other connections and their read caches
-- stay, the token has no connection that it did not have, and keeps its read cache.
pub record Touches {C : Type 0} (t : ℕ) (s s' : Loop C) : Type 0 where
  pub same_unique : s'.unique_token ≡ s.unique_token
  pub other_connections : Elsewhere t s.connections s'.connections
  pub other_caches : Elsewhere t s.read_caches s'.read_caches
  pub no_new :
      (c : Connection)
      → find t s'.connections ≡ some c
      → (d : Connection) × (find t s.connections ≡ some d)
  pub still_cached :
      (b : Bytes) → find t s.read_caches ≡ some b → (d : Bytes) × (find t s'.read_caches ≡ some d)
  pub keeps_accounted : IsAccounted s.handlers → IsAccounted s'.handlers

pub token_cases : (u t : ℕ) → (u ≡ t) ⊎ (u ≢ t)
token_cases u t = elim (Bool-cases (u == t)) [
  | inl e ↦ inl (ground (arith, e))
  | inr n ↦ inr (λ e. ground (arith, e, n))
]

pub ok_cancel : {E A : Type 0} {a b : A} → ◌≡◌ {A = Result E A} (ok a) (ok b) → a ≡ b
ok_cancel h = cc

in_loop-ok : {A : Type 0} (r : Result StreamError A) {a : A} → in_loop r ≡ ok a → r ≡ ok a
in_loop-ok (ok x) h = cc h
in_loop-ok (err e) h = absurd (cc h)

module _ {C : Type 0} where
  pub Touches-refl : (t : ℕ) (s : Loop C) → Touches t s s
  Touches-refl t s = record {
    same_unique = refl;
    other_connections = λ u n. refl;
    other_caches = λ u n. refl;
    no_new = λ c h. (c, h);
    still_cached = λ b h. (b, h);
    keeps_accounted = λ a. a;
  }

  pub Touches-trans :
      {t : ℕ} {s s' s'' : Loop C} → Touches t s s' → Touches t s' s'' → Touches t s s''
  Touches-trans a b = record {
    same_unique = b.same_unique ∙ a.same_unique;
    other_connections = λ u n. b.other_connections u n ∙ a.other_connections u n;
    other_caches = λ u n. b.other_caches u n ∙ a.other_caches u n;
    no_new = λ c h. let (d, k) = b.no_new c h in a.no_new d k;
    still_cached = λ c h. let (d, k) = a.still_cached c h in b.still_cached d k;
    keeps_accounted = λ h. b.keeps_accounted (a.keeps_accounted h);
  }

  pub Touches-IsServed : (t : ℕ) (s s' : Loop C) → Touches t s s' → IsServed s → IsServed s'
  Touches-IsServed t s s' touches i = record {
    positive = rw touches.same_unique i.positive;
    fresh = λ u c h. let (d, k) = had u c h in rw touches.same_unique (i.fresh u d k);
    cached = λ u c h. let (d, k) = had u c h in has u (i.cached u d k);
    accounted = touches.keeps_accounted i.accounted;
  }
    where
      had :
          (u : ℕ) (c : Connection)
          → find u s'.connections ≡ some c
          → (d : Connection) × (find u s.connections ≡ some d)
      had u c h = elim (token_cases u t) [
        | inl e ↦
            subst (λ x. (d : Connection) × (find x s.connections ≡ some d)) (sym e)
              (touches.no_new c (subst (λ x. find x s'.connections ≡ some c) e h))
        | inr n ↦ (c, sym (touches.other_connections u n) ∙ h)
      ]

      has :
          (u : ℕ)
          → (b : Bytes) × (find u s.read_caches ≡ some b)
          → (b : Bytes) × (find u s'.read_caches ≡ some b)
      has u (b, h) = elim (token_cases u t) [
        | inl e ↦
            subst (λ x. (d : Bytes) × (find x s'.read_caches ≡ some d)) (sym e)
              (touches.still_cached b (subst (λ x. find x s.read_caches ≡ some b) e h))
        | inr n ↦ (b, touches.other_caches u n ∙ h)
      ]

  pub put_connection-Touches :
      (t : ℕ) (c d : Connection) (s : Loop C)
      → find t s.connections ≡ some d
      → Touches t s (record s { connections = put t c s.connections })
  put_connection-Touches t c d s h = record {
    same_unique = refl;
    other_connections = λ u n. find-put_other t u c s.connections n;
    other_caches = λ u n. refl;
    no_new = λ e k. (d, h);
    still_cached = λ b k. (b, k);
    keeps_accounted = λ a. a;
  }

  pushed-Touches :
      (t : ℕ) (resps : List Bytes) (s : Loop C) (o : Option Connection)
      → find t s.connections ≡ o
      → Touches t s (record s { connections = pushed t resps s.connections o })
  pushed-Touches t resps s none h = Touches-refl t s
  pushed-Touches t resps s (some c) h = put_connection-Touches t _ c s h

  -- The entry of the read cache is replaced, and the handlers.
  read-Touches :
      (t : ℕ) (b left : Bytes) (h : Handlers (ℕ × C)) (s : Loop C)
      → find t s.read_caches ≡ some b
      → (IsAccounted s.handlers → IsAccounted h)
      → Touches t s (record s { read_caches = put t left s.read_caches; handlers = h })
  read-Touches t b left h s e keeps = record {
    same_unique = refl;
    other_connections = λ u n. refl;
    other_caches = λ u n. find-put_other t u left s.read_caches n;
    no_new = λ d k. (d, k);
    still_cached = λ d k. (left, find-put_same t left s.read_caches);
    keeps_accounted = keeps;
  }

  flagged-Touches :
      (t : ℕ) (flag : Bool) (s s' : Loop C)
      → Touches t s s'
      → Touches t s (record s' { is_shutdown = flag })
  flagged-Touches t flag s s' touches = record {
    same_unique = touches.same_unique;
    other_connections = touches.other_connections;
    other_caches = touches.other_caches;
    no_new = touches.no_new;
    still_cached = touches.still_cached;
    keeps_accounted = touches.keeps_accounted;
  }

  pub dropped_connection-Touches :
      (t : ℕ) (s : Loop C) → Touches t s (record s { connections = without t s.connections })
  dropped_connection-Touches t s = record {
    same_unique = refl;
    other_connections = λ u n. find-without_other t u s.connections n;
    other_caches = λ u n. refl;
    no_new = λ c k. absurd (cc (k, find-without_same t s.connections));
    still_cached = λ b k. (b, k);
    keeps_accounted = λ a. a;
  }

  module _ (accept : ℕ → AcceptAnswer) (next : Bytes → Next C) (is_stop shuts_down : C → Bool)
      (answer : ℕ × C → Bytes) where
    pub handle_readable-Touches :
        (event : Event) (s s' : Loop C)
        → handle_readable accept next is_stop shuts_down answer event s ≡ ok s'
        → Touches event.token s s'
    unfolding handle_readable
    handle_readable-Touches event s s' e =
        let (b, cached, e1) =
          ok_or-eq-ok missing_cache (find event.token s.read_caches)
            (parse_on accept next is_stop shuts_down answer event s) e in
        let (r, was_read, e2) =
          >>=-eq-ok (read_calls accept next is_stop shuts_down answer event s b)
            (λ r. ok (with_read accept next is_stop shuts_down answer event s r)) e1 in
        subst (Touches event.token s) (ok_cancel e2)
          (with_read-Touches event s b r cached (in_loop-ok _ was_read))
      where
        with_read-Touches :
            (event : Event) (s : Loop C) (b : Bytes) (r : Bytes × Handlers (ℕ × C))
            → find event.token s.read_caches ≡ some b
            → read_handle_request
                (λ (c : ℕ × C). is_stop c.1)
                (λ bytes. tagged event.token (next bytes))
                (read_bytes_from_stream event.read event.fuel)
                b
                s.handlers
              ≡ ok r
            → Touches event.token s (with_read accept next is_stop shuts_down answer event s r)
        with_read-Touches event s b (left, h) cached e =
            let s1 : Loop C = record s {
              read_caches = put event.token left s.read_caches;
              handlers = h;
            } in
            let calls = handled_of (new_actions s.handlers h) in
            flagged-Touches event.token _ s _ (
              Touches-trans
                (read-Touches event.token b left h s cached (
                  read_handle_request-IsAccounted (λ (c : ℕ × C). is_stop c.1)
                    (λ bytes. tagged event.token (next bytes))
                    (read_bytes_from_stream event.read event.fuel) b left s.handlers h e))
                (pushed-Touches event.token (map answer calls) s1 _ refl))

    pub handle_writable-Touches :
        (event : Event) (s s' : Loop C)
        → handle_writable accept next is_stop shuts_down answer event s ≡ ok s'
        → Touches event.token s s'
    unfolding handle_writable write_to
    handle_writable-Touches event s s' e = write_to-Touches (find event.token s.connections) refl e
      where
        write_to-Touches :
            (o : Option Connection)
            → find event.token s.connections ≡ o
            → write_to accept next is_stop shuts_down answer event s o ≡ ok s'
            → Touches event.token s s'
        write_to-Touches none h e =
            subst (Touches event.token s) (ok_cancel e) (Touches-refl event.token s)
        write_to-Touches (some c) h e =
            written-Touches (write_responses event.write event.fuel c.resp_queue c.stream) e
          where
            written-Touches :
                (r : Result StreamError (Unit {0}) × (List Bytes × Socket))
                → written accept next is_stop shuts_down answer event.token s r ≡ ok s'
                → Touches event.token s s'
            written-Touches (err x, qk) e = absurd (cc e)
            written-Touches (ok u, (q, k)) e =
                subst (Touches event.token s) (ok_cancel e)
                  (put_connection-Touches event.token (record { resp_queue = q; stream = k }) c s h)
