-- ===== src/Poller/Tests/Startup.antt =====
-- The cache of deposits of the two vaults of the parent.
use revaultd.Prelude.{◌+◌, some, err, ok}
use revaultd.Fault.{server}
use revaultd.Database.Schema.{OutPoint}
use revaultd.Poller.Setup.{Setup}

abbrev pub setup : Setup
setup = record {
  dust_limit = 200000;
  min_deposit = 240000;
  min_conf = 6;
  wallet_id = some 1;
  derivation_index_map = λ script. some script;
  increment = λ n. some (n + 1);
  deposit_script = λ n. n;
  deposit_address = λ n. n;
  unvault_address = λ n. n;
  unvault_tx = λ _ _ _. err server;
  addr_descriptor = λ _ n. ok n;
  import_fresh_deposit = λ _ _. ok tt;
  import_fresh_unvault = λ _ _. ok tt;
}

abbrev deposit : OutPoint
deposit = record { txid = 1; vout = 0 }
