-- ===== src/Server/Loop/Accepted.antt =====
-- src/daemon/jsonrpc/server.rs: what the connections that are accepted leave of the tables.
use revaultd.Prelude.{
  ℕ, zero, suc, ◌≡◌, ◌≢◌, ◌∙◌, refl, sym, subst, arith, true, false, Bool-cases, inl, inr, some, [],
  Result, ok,
}
use revaultd.Server.Stream.{Bytes}
use revaultd.Server.Requests.{Next}
use revaultd.Server.Connections.{find, put, find-put_same, find-put_other}
use revaultd.Server.Loop.{
  Connection, Loop, AcceptAnswer, accepted, no_more, refused, LoopError, new_connection, connected,
  accept_one, accept_all,
}
use revaultd.Server.Loop.Served.{IsServed, token_cases, ok_cancel}

module _ {C : Type 0} where
  -- Every connection stays as it is, and its read cache.
  abbrev pub Keeps : Loop C → Loop C → Type 0
  Keeps s s' =
      (u : ℕ) (c : Connection)
      → find u s.connections ≡ some c
      → (find u s'.connections ≡ some c) × (find u s'.read_caches ≡ find u s.read_caches)

  module _ (accept : ℕ → AcceptAnswer) (next : Bytes → Next C) where
    connected-IsServed : (s : Loop C) → IsServed s → IsServed (connected accept next s)
    connected-IsServed s i = record {
      positive = omega arith;
      fresh = λ u c h. elim (token_cases u s.unique_token) [
        | inl e ↦ let p = i.positive in (omega (arith, e, p), omega (arith, e))
        | inr n ↦
            let (p, q) =
              i.fresh u c
                (sym (find-put_other s.unique_token u new_connection s.connections n) ∙ h) in
            (p, omega (arith, q))
      ];
      cached = λ u c h. elim (token_cases u s.unique_token) [
        | inl e ↦ (
          [],
          subst (λ x. find x (put s.unique_token [] s.read_caches) ≡ some []) (sym e)
              (find-put_same s.unique_token [] s.read_caches),
        )
        | inr n ↦
            let (b, k) =
              i.cached u c
                (sym (find-put_other s.unique_token u new_connection s.connections n) ∙ h) in
            (b, find-put_other s.unique_token u [] s.read_caches n ∙ k)
      ];
      accounted = i.accounted;
    }

    connected-Keeps : (s : Loop C) → IsServed s → Keeps s (connected accept next s)
    connected-Keeps s i u c h =
        let (p, q) = i.fresh u c h in
        let n : u ≢ s.unique_token = λ e. omega (arith, e, q) in
        (
          find-put_other s.unique_token u new_connection s.connections n ∙ h,
          find-put_other s.unique_token u [] s.read_caches n,
        )

    -- what the accepts leave, if all is served before
    abbrev Leaves : Loop C → Loop C → Type 0
    Leaves s s' = IsServed s → IsServed s' × Keeps s s'

    Leaves-trans : {s s' s'' : Loop C} → Leaves s s' → Leaves s' s'' → Leaves s s''
    Leaves-trans a b i =
        let (i', keeps) = a i in
        let (i'', keeps') = b i' in
        (i'', λ u c h. let (p, q) = keeps u c h in let (p', q') = keeps' u c p in (p', q' ∙ q))

    accept_one-Leaves :
        (again : Loop C → Result LoopError (Loop C)) (a : AcceptAnswer) (s s' : Loop C)
        → ((r : Loop C) → again r ≡ ok s' → Leaves r s')
        → accept_one accept next again a s ≡ ok s'
        → Leaves s s'
    accept_one-Leaves again (accepted true) s s' later e =
        Leaves-trans (λ i. (connected-IsServed s i, connected-Keeps s i))
          (later (connected accept next s) e)
    accept_one-Leaves again (accepted false) s s' later e = absurd (cc e)
    accept_one-Leaves again refused s s' later e = absurd (cc e)
    accept_one-Leaves again no_more s s' later e =
        subst (Leaves s) (ok_cancel e) (λ i. (counted i, λ u c h. (h, refl)))
      where
        counted : IsServed s → IsServed (record s { accepts = suc s.accepts })
        counted i = record {
          positive = i.positive;
          fresh = i.fresh;
          cached = i.cached;
          accounted = i.accounted;
        }

    pub accept_all-Leaves :
        (fuel : ℕ) (s s' : Loop C) → accept_all accept next fuel s ≡ ok s' → Leaves s s'
    unfolding accept_all
    accept_all-Leaves zero s s' e = absurd (cc e)
    accept_all-Leaves (suc fuel) s s' e = elim (Bool-cases s.is_shutdown) [
      | inl down ↦
          subst (Leaves s) (ok_cancel {E = LoopError} (ground (arith, down, e)))
            (λ i. (i, λ u c h. (h, refl)))
      | inr up ↦
          accept_one-Leaves (accept_all accept next fuel) (accept s.accepts) s s'
            (λ r. accept_all-Leaves fuel r s') (ground (arith, up, e))
    ]
