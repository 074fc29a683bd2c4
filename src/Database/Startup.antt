-- ===== src/Database/Startup.antt =====
-- src/daemon/database/actions.rs: the database is created, checked and read when the daemon starts; and
-- src/daemon/revaultd.rs: the addresses that are imported then.
pub mod Kept
pub mod Restart
use revaultd.Prelude.{
  ℕ, zero, suc, ◌+◌, ◌%◌, ◌^◌, Bool, Option, none, some, List, [], ◌∷◌, ◌++◌, ◌==◌, if◌then◌else◌,
  Result, ok, err, ok_or, guard, map, ◌>>=◌, ◌>>◌,
}
use revaultd.Fault.{
  Res, DatabaseError, database, custom, panic, constraint_failed, unexpected_version,
  invalid_network, descriptor_mismatch, no_time,
}
use revaultd.Database.Schema.{BlockchainTip, DbWallet, TipRow, Db}
use revaultd.Database.Interface.{db_version, db_tip, db_network, db_wallet}
use revaultd.Database.Deposits.{timestamp_to_u32}

abbrev pub db_version_number : ℕ
db_version_number = 0

-- The part of `RevaultD` that the start uses: the configuration, and then the state.
pub record Revaultd : Type 0 where
  pub network : ℕ
  pub deposit_descriptor : ℕ
  pub unvault_descriptor : ℕ
  pub cpfp_descriptor : ℕ
  pub our_man_xpub : Option ℕ
  pub our_stk_xpub : Option ℕ
  pub tip : Option BlockchainTip
  pub current_unused_index : ℕ
  -- from a script to the index that it is derived at, the newest entry first
  pub derivation_index_map : List (ℕ × ℕ)
  pub wallet_id : Option ℕ

-- The tables after the schema and the three insertions; the hash of the first tip is zero.
abbrev pub created : Revaultd → ℕ → Db
created daemon timestamp = record {
  now = timestamp;
  version = db_version_number ∷ [];
  tips = record { network = daemon.network; tip = record { height = 0; hash = 0 } } ∷ [];
  wallets =
      record {
        id = 1;
        timestamp = timestamp;
        deposit_descriptor = daemon.deposit_descriptor;
        unvault_descriptor = daemon.unvault_descriptor;
        cpfp_descriptor = daemon.cpfp_descriptor;
        our_man_xpub = daemon.our_man_xpub;
        our_stk_xpub = daemon.our_stk_xpub;
        deposit_derivation_index = daemon.current_unused_index;
      }
      ∷ [];
  vaults = [];
  presigned = [];
  spend_inputs = [];
  spends = [];
}

-- The clock may stand before the epoch.
unfoldable pub create_db : Revaultd → Option ℕ → Res Db
unfolding timestamp_to_u32
create_db daemon clock = do
  seconds ← ok_or (database no_time) clock
  timestamp ← timestamp_to_u32 seconds
  ok (created daemon timestamp)

unfoldable pub check_db : Revaultd → Db → Res (Unit {0})
unfolding db_wallet db_version db_network
check_db daemon db = do
  wallet ← db_wallet db
  version ← db_version db
  guard (database unexpected_version) (version == db_version_number)
  db_net ← db_network db
  guard (database invalid_network) (db_net == daemon.network)
  guard (database descriptor_mismatch) (daemon.deposit_descriptor == wallet.deposit_descriptor)
  guard (database descriptor_mismatch) (daemon.unvault_descriptor == wallet.unvault_descriptor)
  guard (database descriptor_mismatch) (daemon.cpfp_descriptor == wallet.cpfp_descriptor)

abbrev pub gap_limit : ℕ
gap_limit = 100

-- `self.current_unused_index + self.gap_limit()` on `u32`
abbrev pub end_index : ℕ → ℕ
end_index raw_index = (raw_index + gap_limit) % 2 ^ 32

module _ (deposit_script : ℕ → ℕ) where
  -- `(0..n).for_each(|i| …)`, the insertion of the script of each index
  unfoldable pub insert_indices : ℕ → List (ℕ × ℕ) → List (ℕ × ℕ)
  insert_indices zero m = m
  insert_indices (suc i) m = (deposit_script i, i) ∷ insert_indices i m

  unfoldable pub state_from_db : Revaultd → Db → Res Revaultd
  unfolding db_wallet db_tip insert_indices
  state_from_db daemon db = do
    wallet ← db_wallet db
    tip ← db_tip db
    ok (record daemon {
      tip = some tip;
      current_unused_index = wallet.deposit_derivation_index;
      derivation_index_map =
          insert_indices (end_index wallet.deposit_derivation_index) daemon.derivation_index_map;
      wallet_id = some wallet.id;
    })

  -- The file is there or not, and stays.
  unfoldable pub setup_db : Revaultd → Option ℕ → Option Db → Res (Revaultd × Db)
  unfolding create_db check_db state_from_db
  setup_db daemon clock (some db) = do
    check_db daemon db
    daemon ← state_from_db daemon db
    ok (daemon, db)
  setup_db daemon clock none = do
    db ← create_db daemon clock
    check_db daemon db
    daemon ← state_from_db daemon db
    ok (daemon, db)
