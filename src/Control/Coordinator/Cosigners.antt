-- ===== src/Control/Coordinator/Cosigners.antt =====
-- src/daemon/control.rs: each cosigning server is asked once, in order, for its signatures of the
-- Spend without its signatures, and what it answers is added to the Spend.
use revaultd.Prelude.{
  ℕ, suc, ◌≡◌, refl, ap, subst, sym, arith, Option, Option-cases, inl, inr, some, List, [], ◌∷◌,
  Result, ok, err,
}
use revaultd.Prelude.Stateful.{◌>>=◌, after, after-eq-ok}
use revaultd.Sigs.{Bytes, SigMap}
use revaultd.Database.Schema.{SpendPsbt}
use revaultd.Control.Signatures.{Secp, split_last}
use revaultd.Control.Session.{
  communication, cosig_already_signed, cosig_insane_psbt, Refusal, connecting, sign_request,
  Message, Session, Net, ask, present,
}
use revaultd.Control.Session.Steps.{ask-after, present-after}
use revaultd.Control.Coordinator.{
  Txs, stripped, add_input_signatures, add_signatures, poll_cosigs, fetch_cosigs_signatures,
}
use revaultd.Control.Coordinator.Sharing.{connect-after}

-- The log after these servers were asked to sign the transaction.
abbrev pub polled : SpendPsbt → List ℕ → List Message → List Message
polled tx [] log = log
polled tx (host ∷ hosts) log = polled tx hosts (sign_request host tx ∷ connecting host ∷ log)

after-same :
    {A B : Type 0} {s : Session} (p : Result Refusal A × Session)
    (f : A → Session → Result Refusal B × Session)
    → p.1 ≡ s
    → ((a : A) → (f a s).1 ≡ s)
    → (after p f).1 ≡ s
after-same {s = s} (ok a, w) f e h = subst (λ t. (f a t).1 ≡ s) (sym e) (h a)
after-same (err x, w) f e h = e

module _ (secp : Secp) (servers : Net) (txs : Txs) where
  -- `tx'` is `tx` with each of these signatures added at the input, in their order. The bytes of one
  -- are its encoding, and a byte for the type of its hash.
  abbrev pub AreAdded : ℕ → SigMap → SpendPsbt → SpendPsbt → Type 0
  AreAdded i [] tx tx' = tx' ≡ tx
  AreAdded i ((key, bytes) ∷ sigs) tx tx' =
      (flag : ℕ) × (raw : Bytes) × (signature : ℕ) × (tx1 : SpendPsbt) × (split_last bytes
        ≡ some (flag, raw))
      × (secp.from_der raw ≡ some signature)
      × (txs.add_spend_signature tx i key signature ≡ some tx1)
      × AreAdded i sigs tx1 tx'

  -- The signatures of each input, from the input `i` on.
  abbrev pub AreAddedFrom : ℕ → List SigMap → SpendPsbt → SpendPsbt → Type 0
  AreAddedFrom i [] tx tx' = tx' ≡ tx
  AreAddedFrom i (sigs ∷ inputs) tx tx' =
      (tx1 : SpendPsbt) × AreAdded i sigs tx tx1 × AreAddedFrom (suc i) inputs tx1 tx'

  -- Each server has answered the request with a transaction, of which the signatures of every input
  -- were added to what the servers before had made of `tx`.
  abbrev pub AreCosigned : SpendPsbt → List ℕ → SpendPsbt → SpendPsbt → List Message → Type 0
  AreCosigned stripped_tx [] tx signed log = signed ≡ tx
  AreCosigned stripped_tx (host ∷ hosts) tx signed log =
      (answer : SpendPsbt) × (tx1 : SpendPsbt) × (servers.sign_result
          (sign_request host stripped_tx ∷ connecting host ∷ log)
        ≡ some (some answer))
      × AreAddedFrom 0 answer.input_sigs tx tx1
      × AreCosigned stripped_tx hosts tx1 signed
          (sign_request host stripped_tx ∷ connecting host ∷ log)

  add_input_signatures-AreAdded :
      (i : ℕ) (sigs : SigMap) (tx tx' : SpendPsbt) (s s' : Session)
      → add_input_signatures secp servers txs i sigs tx s ≡ (ok tx', s')
      → AreAdded i sigs tx tx'
  unfolding add_input_signatures
  add_input_signatures-AreAdded i [] tx tx' s s' h = sym (ground (arith, h))
  add_input_signatures-AreAdded i ((key, bytes) ∷ sigs) tx tx' s s' h =
      let rest = add_input_signatures secp servers txs i sigs in
      let add = λ (signature : ℕ).
        present (communication cosig_insane_psbt) (txs.add_spend_signature tx i key signature)
        >>= rest in
      let ((flag, raw), e1, h1) =
        present-after (communication cosig_insane_psbt) (split_last bytes) s
          (λ (parts : ℕ × Bytes).
            present (communication cosig_insane_psbt) (secp.from_der parts.1) >>= add)
          h in
      let (signature, e2, h2) =
        present-after (communication cosig_insane_psbt) (secp.from_der raw) s add h1 in
      let (tx1, e3, h3) =
        present-after (communication cosig_insane_psbt) (txs.add_spend_signature tx i key signature)
          s rest h2 in
      (flag, raw, signature, tx1, e1, e2, e3, add_input_signatures-AreAdded i sigs tx1 tx' s s' h3)

  add_signatures-AreAddedFrom :
      (i : ℕ) (inputs : List SigMap) (tx tx' : SpendPsbt) (s s' : Session)
      → add_signatures secp servers txs i inputs tx s ≡ (ok tx', s')
      → AreAddedFrom i inputs tx tx'
  unfolding add_signatures
  add_signatures-AreAddedFrom i [] tx tx' s s' h = sym (ground (arith, h))
  add_signatures-AreAddedFrom i (sigs ∷ inputs) tx tx' s s' h =
      let p = add_input_signatures secp servers txs i sigs tx s in
      let (tx1, e, h1) =
        after-eq-ok p (add_signatures secp servers txs (suc i) inputs) {b = tx'} {w' = s'} h in
      (
        tx1,
        add_input_signatures-AreAdded i sigs tx tx1 s p.1 (ap (λ r. (r, p.1)) e),
        add_signatures-AreAddedFrom (suc i) inputs tx1 tx' p.1 s' h1,
      )

  add_input_signatures-same :
      (i : ℕ) (sigs : SigMap) (tx : SpendPsbt) (s : Session)
      → (add_input_signatures secp servers txs i sigs tx s).1 ≡ s
  unfolding add_input_signatures
  add_input_signatures-same i [] tx s = refl
  add_input_signatures-same i ((key, bytes) ∷ sigs) tx s = elim (Option-cases (split_last bytes)) [
    | inl e ↦ ground (arith, e)
    | inr ((flag, raw), e) ↦ elim (Option-cases (secp.from_der raw)) [
      | inl e1 ↦ ground (arith, e, e1)
      | inr (signature, e1) ↦ elim (Option-cases (txs.add_spend_signature tx i key signature)) [
        | inl e2 ↦ ground (arith, e, e1, e2)
        | inr (tx', e2) ↦ ground (arith, e, e1, e2, add_input_signatures-same i sigs tx' s)
      ]
    ]
  ]

  add_signatures-same :
      (i : ℕ) (inputs : List SigMap) (tx : SpendPsbt) (s : Session)
      → (add_signatures secp servers txs i inputs tx s).1 ≡ s
  unfolding add_signatures
  add_signatures-same i [] tx s = refl
  add_signatures-same i (sigs ∷ inputs) tx s =
      after-same (add_input_signatures secp servers txs i sigs tx s)
        (λ tx'. add_signatures secp servers txs (suc i) inputs tx')
        (add_input_signatures-same i sigs tx s) (λ tx'. add_signatures-same (suc i) inputs tx' s)

  poll_cosigs-ok :
      (stripped_tx : SpendPsbt) (hosts : List ℕ) (tx signed : SpendPsbt) (s s' : Session)
      → poll_cosigs secp servers txs stripped_tx hosts tx s ≡ (ok signed, s')
      → (s' ≡ record s { log = polled stripped_tx hosts s.log })
        × AreCosigned stripped_tx hosts tx signed s.log
  unfolding poll_cosigs
  poll_cosigs-ok stripped_tx [] tx signed s s' h = (ap (λ p. p.1) (sym h), sym (ground (arith, h)))
  poll_cosigs-ok stripped_tx (host ∷ hosts) tx signed s s' h =
      let merge = λ (signed_tx : SpendPsbt).
        add_signatures secp servers txs 0 signed_tx.input_sigs tx
        >>= (λ tx'. poll_cosigs secp servers txs stripped_tx hosts tx') in
      let answer =
        λ (res : Option SpendPsbt). present (communication cosig_already_signed) res >>= merge in
      let h1 =
        connect-after secp servers host s
          (λ _. ask servers.sign_result (sign_request host stripped_tx) >>= answer) h in
      let s1 = record s { log = connecting host ∷ s.log } in
      let (res, e, h2) =
        ask-after servers.sign_result (sign_request host stripped_tx) s1 answer h1 in
      let s2 = record s { log = sign_request host stripped_tx ∷ connecting host ∷ s.log } in
      let (signed_tx, e1, h3) =
        present-after (communication cosig_already_signed) res s2 merge h2 in
      let p = add_signatures secp servers txs 0 signed_tx.input_sigs tx s2 in
      let (tx', e2, h4) =
        after-eq-ok p (λ tx'. poll_cosigs secp servers txs stripped_tx hosts tx') {b = signed}
          {w' = s'} h3 in
      let (same, cosigned) = poll_cosigs-ok stripped_tx hosts tx' signed s2 s' (
        subst (λ t. poll_cosigs secp servers txs stripped_tx hosts tx' t ≡ (ok signed, s'))
          {x = p.1} {y = s2} (add_signatures-same 0 signed_tx.input_sigs tx s2) h4) in
      (
        same,
        (
          signed_tx,
          tx',
          subst
              (λ r.
                servers.sign_result (sign_request host stripped_tx ∷ connecting host ∷ s.log)
                ≡ some r)
              {x = res} {y = some signed_tx} e1 e,
          add_signatures-AreAddedFrom 0 signed_tx.input_sigs tx tx' s2 p.1 (ap (λ r. (r, p.1)) e2),
          cosigned,
        ),
      )

  pub fetch_cosigs_signatures-ok :
      (tx signed : SpendPsbt) (hosts : List ℕ) (s s' : Session)
      → fetch_cosigs_signatures secp servers txs tx hosts s ≡ (ok signed, s')
      → (s' ≡ record s { log = polled (stripped tx) hosts s.log })
        × AreCosigned (stripped tx) hosts tx signed s.log
  unfolding fetch_cosigs_signatures
  fetch_cosigs_signatures-ok tx signed hosts s s' h =
      poll_cosigs-ok (stripped tx) hosts tx signed s s' h
