-- ===== src/Config/Tests.antt =====
-- A configuration of a manager that is a stakeholder too.
use revaultd.Prelude.{◌≡◌, ◌≢◌, refl, ok, none, Option, Result, some, [], ◌∷◌, tables}
use revaultd.Config.{
  single, desc_xpub, Config, ConfigError, FilePath, unwrap_or, config_file_path, from_file,
}
use revaultd.Config.Checked.{IsStakeholderOf, IsManagerOf, from_file-checked}

abbrev both_roles : Config
both_roles = record {
  network = 3;
  deposit_keys = desc_xpub 7 ∷ desc_xpub 8 ∷ [];
  unvault_keys = single 30 ∷ desc_xpub 7 ∷ desc_xpub 8 ∷ desc_xpub 9 ∷ [];
  stakeholder_config =
      some (record { xpub = 7; watchtowers = []; emergency_address = 50; emergency_network = 3 });
  manager_config = some (record { xpub = 9; cosigners = [] });
  coordinator_host = 80;
  data_dir = none;
  daemon = none;
  min_conf = 6;
}

abbrev some_home : Option FilePath
some_home = some (5 ∷ [])

abbrev reading : FilePath → Result ConfigError Config
reading path = ok both_roles

accepted : from_file reading some_home none ≡ ok both_roles
unfolding from_file tables
accepted = refl

from_file-checked_example :
    (some_home ≢ none)
    × ((path : FilePath) × (config_file_path some_home ≡ ok path)
        × (reading (unwrap_or none path) ≡ ok both_roles))
    × IsStakeholderOf both_roles both_roles.stakeholder_config
    × IsManagerOf both_roles both_roles.manager_config
from_file-checked_example = from_file-checked reading some_home none both_roles accepted
