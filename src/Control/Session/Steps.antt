-- ===== src/Control/Session/Steps.antt =====
-- A step of a call that returns: what it did, and the rest of the call from there.
use revaultd.Prelude.{
  ◌≡◌, refl, arith, Bool, true, false, Option, none, some, List, ◌∷◌, Result, ok, err,
}
use revaultd.Prelude.Stateful.{after}
use revaultd.Fault.{Res}
use revaultd.Database.Schema.{Db}
use revaultd.Control.Session.{
  Refusal, Message, Session, stored, exec, present, require, received, ask,
}

module _ {β} {B : Type β} where
  stored-after :
      (r : Res Db) (s : Session) (k : Unit {0} → Session → Result Refusal B × Session) {b : B}
      {s' : Session}
      → after (stored r s) k ≡ (ok b, s')
      → (db : Db) × (r ≡ ok db) × (k tt (record s { db = db }) ≡ (ok b, s'))
  stored-after (ok db) s k h = (db, refl, h)
  stored-after (err e) s k {b} {s'} h = absurd (ground arith)

  pub exec-after :
      (f : Db → Res Db) (s : Session) (k : Unit {0} → Session → Result Refusal B × Session) {b : B}
      {s' : Session}
      → after (exec f s) k ≡ (ok b, s')
      → (db : Db) × (f s.db ≡ ok db) × (k tt (record s { db = db }) ≡ (ok b, s'))
  exec-after f s k h = stored-after (f s.db) s k h

  pub require-after :
      (e : Refusal) (t : Bool) (s : Session) (k : Unit {0} → Session → Result Refusal B × Session)
      {b : B} {s' : Session}
      → after (require e t s) k ≡ (ok b, s')
      → (t ≡ true) × (k tt s ≡ (ok b, s'))
  require-after e true s k h = (refl, h)
  require-after e false s k {b} {s'} h = absurd (ground arith)

  pub present-after {α} :
      {A : Type α} (e : Refusal) (o : Option A) (s : Session)
      (k : A → Session → Result Refusal B × Session) {b : B} {s' : Session}
      → after (present e o s) k ≡ (ok b, s')
      → (a : A) × (o ≡ some a) × (k a s ≡ (ok b, s'))
  present-after e (some a) s k h = (a, refl, h)
  present-after e none s k {b} {s'} h = absurd (ground arith)

  received-after {α} :
      {A : Type α} (o : Option A) (s : Session) (k : A → Session → Result Refusal B × Session)
      {b : B} {s' : Session}
      → after (received o s) k ≡ (ok b, s')
      → (a : A) × (o ≡ some a) × (k a s ≡ (ok b, s'))
  received-after (some a) s k h = (a, refl, h)
  received-after none s k {b} {s'} h = absurd (ground arith)

  pub ask-after {α} :
      {A : Type α} (answer : List Message → Option A) (m : Message) (s : Session)
      (k : A → Session → Result Refusal B × Session) {b : B} {s' : Session}
      → after (ask answer m s) k ≡ (ok b, s')
      → (a : A) × (answer (m ∷ s.log) ≡ some a) × (k a (record s { log = m ∷ s.log }) ≡ (ok b, s'))
  ask-after answer m s k h = received-after (answer (m ∷ s.log)) (record s { log = m ∷ s.log }) k h

  -- A check of a result.
  pub lift-after {α} :
      {A : Type α} (r : Result Refusal A) (s : Session)
      (k : A → Session → Result Refusal B × Session) {b : B} {s' : Session}
      → after (r, s) k ≡ (ok b, s')
      → (a : A) × (r ≡ ok a) × (k a s ≡ (ok b, s'))
  lift-after (ok a) s k h = (a, refl, h)
  lift-after (err e) s k {b} {s'} h = absurd (ground arith)
