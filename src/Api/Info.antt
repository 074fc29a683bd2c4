-- ===== src/Api/Info.antt =====
-- src/daemon/jsonrpc/api.rs: `getinfo`, `getdepositaddress` and `getserverstatus`. The answers are without
-- their JSON and the texts of the configuration.
use revaultd.Prelude.{
  ℕ, Bool, not, ◌&&◌, Option, none, some, List, length, select, Result, ok, ok_or, map_err, ◌>>=◌,
}
use revaultd.Status.{spent, canceled, unvaulted, emergency_vaulted, status_eq}
use revaultd.Database.Schema.{Db}
use revaultd.Database.Interface.{db_tip}
use revaultd.Control.Session.{Refusal, thread_communication, from_fault, Session, Net, Daemon}
use revaultd.Control.Keys.{managers_threshold}
use revaultd.Control.Vaults.{ListVaultsEntry, listvaults_from_db}
use revaultd.Control.Servers.{
  ServerStatus, coordinator_status, cosigners_status, watchtowers_status,
}

-- `F` is `f64`.
pub record Info (F : Type 0) : Type 0 where
  pub blockheight : ℕ
  pub sync : F
  pub vaults : ℕ
  pub threshold : ℕ

abbrev pub is_active : ListVaultsEntry → Bool
is_active l =
    not (status_eq l.status spent)
    && not (status_eq l.status canceled)
    && not (status_eq l.status unvaulted)
    && not (status_eq l.status emergency_vaulted)

-- The progress is what the bitcoind thread answers, if it does.
unfoldable pub getinfo : {F : Type 0} → (ℕ → ℕ) → Daemon → Option F → Db → Result Refusal (Info F)
unfolding db_tip listvaults_from_db managers_threshold select
getinfo vault_address daemon sync_progress db = do
  progress ← ok_or thread_communication sync_progress
  tip ← map_err from_fault (db_tip db)
  ok (record {
    blockheight = tip.height;
    sync = progress;
    vaults = length (select is_active (listvaults_from_db vault_address none none db));
    threshold = managers_threshold daemon;
  })

unfoldable pub getdepositaddress : (ℕ → ℕ) → Daemon → Option ℕ → ℕ
getdepositaddress vault_address daemon (some index) = vault_address index
getdepositaddress vault_address daemon none = vault_address daemon.current_unused_index

pub record ServersStatus : Type 0 where
  pub coordinator : ServerStatus
  pub cosigners : List ServerStatus
  pub watchtowers : List ServerStatus

unfoldable pub getserverstatus : Net → Daemon → Session → ServersStatus × Session
unfolding coordinator_status cosigners_status watchtowers_status
getserverstatus servers daemon s =
    let (coordinator, s1) = coordinator_status servers daemon s in
    let (cosigners, s2) = cosigners_status servers daemon s1 in
    let (watchtowers, s3) = watchtowers_status servers daemon s2 in
    (record { coordinator = coordinator; cosigners = cosigners; watchtowers = watchtowers }, s3)
