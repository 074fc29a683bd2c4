-- ===== src/Config/Checked.antt =====
-- What `Config::from_file` (src/common/config.rs) and `RevaultD::from_config` make of a configuration.
use revaultd.Prelude.{
  ℕ, ◌≡◌, ◌≢◌, ◌∙◌, refl, ap, subst, arith, Bool, true, false, Option, none, some, List, [], ◌∷◌,
  exists, select, ok, err, Result, >>=-eq-ok, ◌>>◌, Bool-cases, inl, inr,
}
use revaultd.Config.{
  DescriptorKey, single, xpub, option_eq, list_eq, key_eq, desc_xpub, StakeholderConfig,
  ManagerConfig, Config, ConfigError, panicked, FilePath, config_file_path, unwrap_or, is_key,
  check_stakeholder, is_manager_key, check_manager, from_file, from_config,
}

option_eq_lem : (a b : Option ℕ) → option_eq a b ≡ true → a ≡ b
option_eq_lem none none h = refl
option_eq_lem none (some b) h = cc
option_eq_lem (some a) none h = cc
option_eq_lem (some a) (some b) h = ground (arith, h)

list_eq_lem : (as_left bs : List ℕ) → list_eq as_left bs ≡ true → as_left ≡ bs
list_eq_lem [] [] h = refl
list_eq_lem [] (b ∷ bs) h = cc
list_eq_lem (a ∷ as_left) [] h = cc
list_eq_lem (a ∷ as_left) (b ∷ bs) h = ground (arith, h, list_eq_lem as_left bs)

key_eq_lem : (a b : DescriptorKey) → key_eq a b ≡ true → a ≡ b
key_eq_lem (single a) (single b) h = ground (arith, h)
key_eq_lem (single a) (xpub b) h = cc
key_eq_lem (xpub a) (single b) h = cc
key_eq_lem (xpub a) (xpub b) h =
    ground
      (arith, h, option_eq_lem a.origin b.origin, list_eq_lem a.derivation_path b.derivation_path)

-- A row that a selection has was in the list, and passes its test.
exists-select {ℓ} :
    {A : Type ℓ} (p q : A → Bool) (xs : List A)
    → exists p (select q xs) ≡ true
    → (x : A) × (p x ≡ true) × (q x ≡ true) × (exists p xs ≡ true)
unfolding exists select
exists-select p q [] h = absurd (cc h)
exists-select p q (x ∷ xs) h = elim (Bool-cases (q x)) [
  | inr fails ↦
      let (y, py, qy, e) = exists-select p q xs (ground (arith, fails, h)) in
      (y, py, qy, ground (arith, e))
  | inl passes ↦ elim (Bool-cases (p x)) [
    | inl here ↦ (x, here, passes, ground (arith, here))
    | inr there ↦
        let (y, py, qy, e) = exists-select p q xs (ground (arith, passes, there, h)) in
        (y, py, qy, ground (arith, e))
  ]
]

-- A stakeholder's key is in the deposit descriptor, and the Emergency address is of the network.
abbrev pub IsStakeholderOf : Config → Option StakeholderConfig → Type 0
IsStakeholderOf config none = Unit {0}
IsStakeholderOf config (some stk_config) =
    (is_key (desc_xpub stk_config.xpub) config.deposit_keys ≡ true)
    × (stk_config.emergency_network ≡ config.network)

-- A manager's key is in the Unvault descriptor, and not in the deposit descriptor.
abbrev pub IsManagerOf : Config → Option ManagerConfig → Type 0
IsManagerOf config none = Unit {0}
IsManagerOf config (some man_config) =
    (is_key (desc_xpub man_config.xpub) config.unvault_keys ≡ true)
    × (is_key (desc_xpub man_config.xpub) config.deposit_keys ≡ false)

check_stakeholder-IsStakeholderOf :
    (config : Config) (o : Option StakeholderConfig)
    → check_stakeholder config o ≡ ok tt
    → IsStakeholderOf config o
unfolding check_stakeholder
check_stakeholder-IsStakeholderOf config none h = tt
check_stakeholder-IsStakeholderOf config (some c) h = ground (arith, h)

check_manager-IsManagerOf :
    (config : Config) (o : Option ManagerConfig)
    → check_manager config o ≡ ok tt
    → IsManagerOf config o
unfolding check_manager
check_manager-IsManagerOf config none h = tt
check_manager-IsManagerOf config (some c) h =
    let key = desc_xpub c.xpub in
    let found : is_key key (select (is_manager_key config.deposit_keys) config.unvault_keys)
        ≡ true =
      ground (arith, h) in
    let (k, same, is_manager, e) =
      exists-select (λ k. key_eq k key) (is_manager_key config.deposit_keys) config.unvault_keys
        found in
    let none_of : is_manager_key config.deposit_keys key ≡ true =
      subst (λ j. is_manager_key config.deposit_keys j ≡ true) {x = k} {y = key}
        (key_eq_lem k key same) is_manager in
    (e, ground (arith, none_of))

home_known :
    (home : Option FilePath) (path : FilePath) → config_file_path home ≡ ok path → home ≢ none
unfolding config_file_path
home_known none path h n = absurd (cc h)
home_known (some p) path h n = cc

checks_end :
    (config' config : Config)
    → (check_stakeholder config' config'.stakeholder_config
        >> (check_manager config' config'.manager_config >> ok config'))
      ≡ ok config
    → (check_stakeholder config' config'.stakeholder_config ≡ ok tt)
      × (check_manager config' config'.manager_config ≡ ok tt)
      × (config' ≡ config)
checks_end config' config h = ground (arith, h)

-- A configuration that `from_file` accepts was read at the given path, or else at the default one; if
-- it is a stakeholder's, its key is in the deposit descriptor and its Emergency address on the network
-- of bitcoind; and if it is a manager's, its key is in the Unvault descriptor and not a stakeholder's.
-- The home directory is known, even where the default path is not used.
pub from_file-checked :
    (read : FilePath → Result ConfigError Config) (home custom_path : Option FilePath)
    (config : Config)
    → from_file read home custom_path ≡ ok config
    → (home ≢ none)
      × ((path : FilePath) × (config_file_path home ≡ ok path)
          × (read (unwrap_or custom_path path) ≡ ok config))
      × IsStakeholderOf config config.stakeholder_config
      × IsManagerOf config config.manager_config
unfolding from_file
from_file-checked read home custom_path config h =
    let (path, e1, h1) = >>=-eq-ok (config_file_path home) _ h in
    let (config', e2, h2) = >>=-eq-ok (read (unwrap_or custom_path path)) _ h1 in
    let (e3, e4, same) = checks_end config' config h2 in
    (
      home_known home path e1,
      (path, e1, e2 ∙ ap (λ c. ok c) same),
      subst (λ (c : Config). IsStakeholderOf c c.stakeholder_config) {x = config'} {y = config} same
          (check_stakeholder-IsStakeholderOf config' config'.stakeholder_config e3),
      subst (λ (c : Config). IsManagerOf c c.manager_config) {x = config'} {y = config} same
          (check_manager-IsManagerOf config' config'.manager_config e4),
    )

-- A configuration with neither role passes the checks, and the daemon that is made of it panics.
from_file-no_role :
    (read : FilePath → Result ConfigError Config)
    (open_dir : FilePath → Result ConfigError FilePath) (parse_host : ℕ → Result ConfigError ℕ)
    (home : FilePath) (path : FilePath) (config : Config)
    → config_file_path (some home) ≡ ok path
    → read path ≡ ok config
    → config.stakeholder_config ≡ none
    → config.manager_config ≡ none
    → (from_file read (some home) none ≡ ok config)
      × (from_config open_dir parse_host (some home) config ≡ err panicked)
unfolding from_file from_config
from_file-no_role read open_dir parse_host home path config p r s m =
    (ground (arith, p, r, s, m), ground (arith, s, m))
