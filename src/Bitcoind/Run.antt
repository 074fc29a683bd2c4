-- ===== src/Bitcoind/Run.antt =====
-- A routine of the poller: what it returns, or how it fails, and the world that it leaves. A failure
-- keeps what was written before it.
use revaultd.Prelude.{ℕ, suc, Option, none, some, ok, err}
unfoldable pub use revaultd.Prelude.Stateful.{after, ◌>>=◌, ◌>>◌, return, fail, lift, rescued, each}
pub use revaultd.Prelude.Stateful.{after-eq-ok, else_of}
use revaultd.Fault.{Fault, Res, is_fatal}
use revaultd.Database.Schema.{Db}
use revaultd.Cache.{Cache}

-- The database, the two caches, the number of requests that bitcoind answered, and the index from
-- which the addresses are unused (`current_unused_index` of `RevaultD`).
pub record World : Type 0 where
  pub db : Db
  pub deposits_cache : Cache
  pub unvaults_cache : Cache
  pub requests : ℕ
  pub current_unused_index : ℕ

abbrev pub Run {ℓ} : Type ℓ → Type ℓ
Run A = World → Res A × World

abbrev pub get_db : Run Db
get_db w = (ok w.db, w)

-- A statement on the database.
abbrev pub exec : (Db → Db) → Run (Unit {0})
exec f w = (ok tt, record w { db = f w.db })

-- A statement that a constraint may refuse.
abbrev pub executed : Res Db → World → Res (Unit {0}) × World
executed (ok db) w = (ok tt, record w { db = db })
executed (err e) w = (err e, w)

abbrev pub try_exec : (Db → Res Db) → Run (Unit {0})
try_exec f w = executed (f w.db) w

abbrev pub on_unvaults : (Cache → Cache) → Run (Unit {0})
on_unvaults f w = (ok tt, record w { unvaults_cache = f w.unvaults_cache })

abbrev pub on_deposits : (Cache → Cache) → Run (Unit {0})
on_deposits f w = (ok tt, record w { deposits_cache = f w.deposits_cache })

-- An operation on a cache that has no result if the entry is missing, which is then the fault.
abbrev pub stored : Fault → Option Cache → (Cache → World) → World → Res (Unit {0}) × World
stored e none put w = (err e, w)
stored e (some c) put w = (ok tt, put c)

abbrev pub try_unvaults : Fault → (Cache → Option Cache) → Run (Unit {0})
try_unvaults e f w = stored e (f w.unvaults_cache) (λ c. record w { unvaults_cache = c }) w

abbrev pub try_deposits : Fault → (Cache → Option Cache) → Run (Unit {0})
try_deposits e f w = stored e (f w.deposits_cache) (λ c. record w { deposits_cache = c }) w

-- `match m { Ok(a) => a, Err(_) => default }`
abbrev pub or_default {ℓ} : {A : Type ℓ} → A → Run A → Run A
or_default d m w = rescued is_fatal d (m w)

-- One request: the answer may depend on how many came before.
abbrev pub request {ℓ} : {A : Type ℓ} → (ℕ → Res A) → Run A
request f w = (f w.requests, record w { requests = suc w.requests })
