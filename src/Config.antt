-- ===== src/Config.antt =====
-- src/common/config.rs, and `RevaultD::from_config` of src/daemon/revaultd.rs: the configuration and the
-- state that is made of it. Texts, keys, hosts and networks are numbers; the file system and the TOML
-- parser are parameters.
pub mod Checked
mod Tests
use revaultd.Prelude.{
  ℕ, Bool, true, false, not, ◌&&◌, ◌||◌, Option, none, some, List, [], ◌∷◌, ◌++◌, ◌==◌,
  if◌then◌else◌, exists, select, map, Result, ok, err, ok_or, guard, ◌>>=◌, ◌>>◌,
}

-- `DescriptorPublicKey`: a plain key, or an extended one with its origin, its path and its wildcard.
pub record XKey : Type 0 where
  pub origin : Option ℕ
  pub xkey : ℕ
  pub derivation_path : List ℕ
  pub wildcard : ℕ

pub data DescriptorKey : Type 0 where
  single : ℕ → DescriptorKey
  xpub : XKey → DescriptorKey

abbrev pub option_eq : Option ℕ → Option ℕ → Bool
option_eq none none = true
option_eq (some a) (some b) = a == b
option_eq _ _ = false

abbrev pub list_eq : List ℕ → List ℕ → Bool
list_eq [] [] = true
list_eq (a ∷ as_left) (b ∷ bs) = a == b && list_eq as_left bs
list_eq _ _ = false

abbrev pub key_eq : DescriptorKey → DescriptorKey → Bool
key_eq (single a) (single b) = a == b
key_eq (xpub a) (xpub b) =
    option_eq a.origin b.origin
    && a.xkey == b.xkey
    && list_eq a.derivation_path b.derivation_path
    && a.wildcard == b.wildcard
key_eq _ _ = false

-- `Wildcard::Unhardened`
abbrev pub unhardened : ℕ
unhardened = 1

-- `our_desc_xpub`
abbrev pub desc_xpub : ℕ → DescriptorKey
desc_xpub key =
    xpub (record { origin = none; xkey = key; derivation_path = []; wildcard = unhardened })

-- The host and the Noise key of a server.
abbrev pub Host : Type 0
Host = ℕ × ℕ

pub record StakeholderConfig : Type 0 where
  pub xpub : ℕ
  pub watchtowers : List Host
  pub emergency_address : ℕ
  pub emergency_network : ℕ

pub record ManagerConfig : Type 0 where
  pub xpub : ℕ
  pub cosigners : List Host

pub record Config : Type 0 where
  pub network : ℕ
  -- the keys of the deposit and of the Unvault descriptors
  pub deposit_keys : List DescriptorKey
  pub unvault_keys : List DescriptorKey
  pub stakeholder_config : Option StakeholderConfig
  pub manager_config : Option ManagerConfig
  pub coordinator_host : ℕ
  pub data_dir : Option (List ℕ)
  pub daemon : Option Bool
  pub min_conf : ℕ

pub data ConfigError : Type 0 where
  no_home unreadable invalid_toml unknown_stakeholder emergency_network unknown_manager :
      ConfigError
  invalid_host no_data_dir : ConfigError
  panicked : ConfigError

abbrev pub FilePath : Type 0
FilePath = List ℕ

-- ".revault" and "revault.toml"
abbrev folder_name : ℕ
folder_name = 1

abbrev file_name : ℕ
file_name = 2

unfoldable pub config_folder_path : Option FilePath → Result ConfigError FilePath
config_folder_path none = err no_home
config_folder_path (some path) = ok (path ++ folder_name ∷ [])

unfoldable pub config_file_path : Option FilePath → Result ConfigError FilePath
unfolding config_folder_path
config_file_path home = do path ← config_folder_path home; ok (path ++ file_name ∷ [])

-- `custom_path.unwrap_or(…)`, of which the argument is computed before.
abbrev pub unwrap_or : Option FilePath → FilePath → FilePath
unwrap_or none path = path
unwrap_or (some custom) path = custom

abbrev pub is_key : DescriptorKey → List DescriptorKey → Bool
is_key key keys = exists (λ k. key_eq k key) keys

unfoldable pub check_stakeholder : Config → Option StakeholderConfig → Result ConfigError (Unit {0})
check_stakeholder config none = ok tt
check_stakeholder config (some stk_config) = do
  guard unknown_stakeholder (is_key (desc_xpub stk_config.xpub) config.deposit_keys)
  guard emergency_network (stk_config.emergency_network == config.network)

-- neither a plain key, of a cosigning server, nor a stakeholder's
abbrev pub is_manager_key : List DescriptorKey → DescriptorKey → Bool
is_manager_key stk_xpubs (single _) = false
is_manager_key stk_xpubs (xpub k) = not (is_key (xpub k) stk_xpubs)

unfoldable pub check_manager : Config → Option ManagerConfig → Result ConfigError (Unit {0})
check_manager config none = ok tt
check_manager config (some man_config) = guard unknown_manager (
    is_key (desc_xpub man_config.xpub)
      (select (is_manager_key config.deposit_keys) config.unvault_keys))

-- `read` is the reading and the parsing of a file.
unfoldable pub from_file :
    (FilePath → Result ConfigError Config)
    → Option FilePath
    → Option FilePath
    → Result ConfigError Config
unfolding config_file_path check_stakeholder check_manager
from_file read home custom_path = do
  default_path ← config_file_path home
  config ← read (unwrap_or custom_path default_path)
  check_stakeholder config config.stakeholder_config
  check_manager config config.manager_config
  ok config

-- What `RevaultD` takes of the configuration.
pub record State : Type 0 where
  pub our_stk_xpub : Option ℕ
  pub our_man_xpub : Option ℕ
  pub emergency_address : Option ℕ
  pub cosigs : Option (List Host)
  pub watchtowers : Option (List Host)
  pub coordinator_host : ℕ
  pub data_dir : FilePath
  pub min_conf : ℕ
  pub daemon : Bool

abbrev pub map_option {ℓ κ} : {A : Type ℓ} {B : Type κ} → (A → B) → Option A → Option B
map_option f none = none
map_option f (some a) = some (f a)

abbrev pub has_role : Config → Bool
has_role config = elim config.manager_config [
  | some _ ↦ true
  | none ↦ elim config.stakeholder_config [ some _ ↦ true | none ↦ false ]
]

-- `open_dir` creates the directory and the Noise key in it, or finds them; `parse_host` is the parser of
-- the coordinator's address.
unfoldable pub from_config :
    (FilePath → Result ConfigError FilePath)
    → (ℕ → Result ConfigError ℕ)
    → Option FilePath
    → Config
    → Result ConfigError State
unfolding config_folder_path
from_config open_dir parse_host home config = do
  guard panicked (has_role config)
  folder ← config_folder_path home
  data_dir ← open_dir (unwrap_or config.data_dir folder ++ config.network ∷ [])
  coordinator_host ← parse_host config.coordinator_host
  ok (record {
    our_stk_xpub = map_option (λ (c : StakeholderConfig). c.xpub) config.stakeholder_config;
    our_man_xpub = map_option (λ (c : ManagerConfig). c.xpub) config.manager_config;
    emergency_address =
        map_option (λ (c : StakeholderConfig). c.emergency_address) config.stakeholder_config;
    cosigs = map_option (λ (c : ManagerConfig). c.cosigners) config.manager_config;
    watchtowers = map_option (λ (c : StakeholderConfig). c.watchtowers) config.stakeholder_config;
    coordinator_host = coordinator_host;
    data_dir = data_dir;
    min_conf = config.min_conf;
    daemon = elim config.daemon [ some false ↦ false | _ ↦ true ];
  })
