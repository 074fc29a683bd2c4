-- ===== src/Control/Coordinator/Sharing.antt =====
-- src/daemon/control.rs: valid signatures are shared without a panic, and the messages are theirs.
use revaultd.Prelude.{
  ℕ, ◌≡◌, refl, sym, ◌∙◌, arith, Bool, true, ◌==◌, ◌||◌, some, List, [], ◌∷◌, All, Result, ok, err,
  Option-cases, inl, inr, subst,
}
use revaultd.Prelude.Stateful.{each, after, after-eq-ok, after_assoc}
use revaultd.Sigs.{PubKey, Bytes, SigMap}
use revaultd.Database.Schema.{Txid}
use revaultd.Control.Signatures.{SigHashType, all, all_plus_anyone_can_pay, Secp, split_last}
use revaultd.Control.Signatures.Presigned.{IsValid}
use revaultd.Control.Session.{Refusal, communication, net, connecting, sig, Message, Session, Net}
use revaultd.Control.Session.Steps.{require-after}
use revaultd.Control.Coordinator.{connect, send_sig, send_sig_msg}

-- It returns, or fails in the exchange with a server.
abbrev pub ends_well : Result Refusal (Unit {0}) → Bool
ends_well (ok u) = true
ends_well (err (communication e)) = true
ends_well _ = Bool.false

pub ends_well-after :
    (p : Result Refusal (Unit {0}) × Session)
    (f : Unit {0} → Session → Result Refusal (Unit {0}) × Session)
    → ends_well p.0 ≡ true
    → ends_well (f tt p.1).0 ≡ true
    → ends_well (after p f).0 ≡ true
ends_well-after (ok u, s) f h h' = h'
ends_well-after (err e, s) f h h' = h

pub connect-after {β} :
    {B : Type β} (secp : Secp) (servers : Net) (host : ℕ) (s : Session)
    (k : Unit {0} → Session → Result Refusal B × Session) {b : B} {s' : Session}
    → after (connect secp servers host s) k ≡ (ok b, s')
    → k tt (record s { log = connecting host ∷ s.log }) ≡ (ok b, s')
connect-after secp servers host s k h =
    (require-after (communication net) (servers.connect (connecting host ∷ s.log))
      (record s { log = connecting host ∷ s.log }) k h).1

module _ (secp : Secp) (id : Txid) where
  -- The log `new` is `old` with a message for each of the signatures, the last one on top.
  abbrev pub IsSent : SigMap → List Message → List Message → Type 0
  IsSent [] old new = new ≡ old
  IsSent ((key, bytes) ∷ sigs) old new =
      (flag : ℕ) × (raw : Bytes) × (signature : ℕ) × (split_last bytes ≡ some (flag, raw))
      × (secp.from_der raw ≡ some signature)
      × IsSent sigs (sig id key signature ∷ old) new

module _ (secp : Secp) (servers : Net) (id : Txid) where
  send_sig-ok :
      (key : PubKey) (bytes : Bytes) (s : Session)
      → (send_sig secp servers id (key, bytes) s).0 ≡ ok tt
      → (flag : ℕ) × (raw : Bytes) × (signature : ℕ) × (split_last bytes ≡ some (flag, raw))
        × (secp.from_der raw ≡ some signature)
        × ((send_sig secp servers id (key, bytes) s).1
            ≡ record s { log = sig id key signature ∷ s.log })
  unfolding send_sig
  send_sig-ok key bytes s h = elim (Option-cases (split_last bytes)) [
    | inl e ↦ absurd (ground (arith, h, e))
    | inr ((flag, raw), e) ↦ elim (Option-cases (secp.from_der raw)) [
      | inl e' ↦ absurd (ground (arith, h, e, e'))
      | inr (signature, e') ↦ (flag, raw, signature, e, e', ground (arith, h, e, e'))
    ]
  ]

  module _ {β} {B : Type β} {b : B} {s' : Session} where
    send_sig-after :
        (key : PubKey) (bytes : Bytes) (s : Session)
        (k : Unit {0} → Session → Result Refusal B × Session)
        → after (send_sig secp servers id (key, bytes) s) k ≡ (ok b, s')
        → (flag : ℕ) × (raw : Bytes) × (signature : ℕ) × (split_last bytes ≡ some (flag, raw))
          × (secp.from_der raw ≡ some signature)
          × (k tt (record s { log = sig id key signature ∷ s.log }) ≡ (ok b, s'))
    send_sig-after key bytes s k h =
        let (u, e, h1) =
          after-eq-ok (send_sig secp servers id (key, bytes) s) k {b = b} {w' = s'} h in
        let (flag, raw, signature, e1, e2, e3) = send_sig-ok key bytes s e in
        (
          flag,
          raw,
          signature,
          e1,
          e2,
          subst (λ t. k tt t ≡ (ok b, s')) {x = (send_sig secp servers id (key, bytes) s).1}
              {y = record s { log = sig id key signature ∷ s.log }} e3 h1,
        )

    pub send_sig_msg-after :
        (sigs : SigMap) (s : Session) (k : Unit {0} → Session → Result Refusal B × Session)
        → after (send_sig_msg secp servers id sigs s) k ≡ (ok b, s')
        → (log : List Message) × IsSent secp id sigs s.log log
          × (k tt (record s { log = log }) ≡ (ok b, s'))
    unfolding send_sig_msg each
    send_sig_msg-after [] s k h = (s.log, refl, h)
    send_sig_msg-after ((key, bytes) ∷ sigs) s k h =
        let h' =
          sym (
            after_assoc (send_sig secp servers id (key, bytes) s)
              (λ _. send_sig_msg secp servers id sigs) k)
          ∙ h in
        let (flag, raw, signature, e1, e2, h1) =
          send_sig-after key bytes s (λ _ w. after (send_sig_msg secp servers id sigs w) k) h' in
        let (log, sent, h2) =
          send_sig_msg-after sigs (record s { log = sig id key signature ∷ s.log }) k h1 in
        (log, (flag, raw, signature, e1, e2, sent), h2)

  module _ (sighash : ℕ) (hashtype : SigHashType) where
    send_sig-ends_well :
        (entry : PubKey × Bytes) (s : Session)
        → (secp.as_u8 hashtype == secp.as_u8 all_plus_anyone_can_pay
            || secp.as_u8 hashtype == secp.as_u8 all)
          ≡ true
        → IsValid secp sighash hashtype entry
        → ends_well (send_sig secp servers id entry s).0 ≡ true
    unfolding send_sig
    send_sig-ends_well (key, bytes) s shared (raw, signature, e1, e2, e3) =
        ground (arith, shared, e1, e2)

    pub send_sig_msg-ends_well :
        (sigs : SigMap) (s : Session)
        → (secp.as_u8 hashtype == secp.as_u8 all_plus_anyone_can_pay
            || secp.as_u8 hashtype == secp.as_u8 all)
          ≡ true
        → All (IsValid secp sighash hashtype) sigs
        → ends_well (send_sig_msg secp servers id sigs s).0 ≡ true
    unfolding send_sig_msg each
    send_sig_msg-ends_well [] s shared valid = refl
    send_sig_msg-ends_well (entry ∷ sigs) s shared (valid, rest) =
        ends_well-after (send_sig secp servers id entry s) (λ _. send_sig_msg secp servers id sigs)
          (send_sig-ends_well entry s shared valid)
          (send_sig_msg-ends_well sigs (send_sig secp servers id entry s).1 shared rest)
