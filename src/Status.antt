-- ===== src/Status.antt =====
-- src/daemon/revaultd.rs: `VaultStatus` with its database number, its text and their parsers.
pub mod Codes
mod Tests
use Prim.Native.String.{String}
use text.Mathlib.Text.{◌==◌ as str_eq}
use revaultd.Prelude.{ℕ, Bool, true, false, Option, none, some, ◌==◌, leb, if◌then◌else◌}

pub data VaultStatus : Type 0 where
  unconfirmed funded securing secured activating active unvaulting unvaulted : VaultStatus
  canceling canceled emergency_vaulting emergency_vaulted : VaultStatus
  unvault_emergency_vaulting unvault_emergency_vaulted spending spent : VaultStatus

-- `status as u32`: the discriminants follow the order of the declaration.
abbrev pub as_u32 : VaultStatus → ℕ
as_u32 unconfirmed = 0
as_u32 funded = 1
as_u32 securing = 2
as_u32 secured = 3
as_u32 activating = 4
as_u32 active = 5
as_u32 unvaulting = 6
as_u32 unvaulted = 7
as_u32 canceling = 8
as_u32 canceled = 9
as_u32 emergency_vaulting = 10
as_u32 emergency_vaulted = 11
as_u32 unvault_emergency_vaulting = 12
as_u32 unvault_emergency_vaulted = 13
as_u32 spending = 14
as_u32 spent = 15

-- `TryFrom<u32>`
pub try_from : ℕ → Option VaultStatus
try_from n =
    if n == 0
    then some unconfirmed
    else if n == 1
    then some funded
    else if n == 2
    then some securing
    else if n == 3
    then some secured
    else if n == 4
    then some activating
    else if n == 5
    then some active
    else if n == 6
    then some unvaulting
    else if n == 7
    then some unvaulted
    else if n == 8
    then some canceling
    else if n == 9
    then some canceled
    else if n == 10
    then some emergency_vaulting
    else if n == 11
    then some emergency_vaulted
    else if n == 12
    then some unvault_emergency_vaulting
    else if n == 13
    then some unvault_emergency_vaulted
    else if n == 14
    then some spending
    else if n == 15
    then some spent
    else none

-- `Display`
pub display : VaultStatus → String
display unconfirmed = "unconfirmed"
display funded = "funded"
display securing = "securing"
display secured = "secured"
display activating = "activating"
display active = "active"
display unvaulting = "unvaulting"
display unvaulted = "unvaulted"
display canceling = "canceling"
display canceled = "canceled"
display emergency_vaulting = "emergencyvaulting"
display emergency_vaulted = "emergencyvaulted"
display unvault_emergency_vaulting = "unvaultemergencyvaulting"
display unvault_emergency_vaulted = "unvaultemergencyvaulted"
display spending = "spending"
display spent = "spent"

-- `FromStr`
pub from_str : String → Option VaultStatus
from_str s =
    if str_eq s "unconfirmed"
    then some unconfirmed
    else if str_eq s "funded"
    then some funded
    else if str_eq s "securing"
    then some securing
    else if str_eq s "secured"
    then some secured
    else if str_eq s "activating"
    then some activating
    else if str_eq s "active"
    then some active
    else if str_eq s "unvaulting"
    then some unvaulting
    else if str_eq s "unvaulted"
    then some unvaulted
    else if str_eq s "canceling"
    then some canceling
    else if str_eq s "canceled"
    then some canceled
    else if str_eq s "emergencyvaulting"
    then some emergency_vaulting
    else if str_eq s "emergencyvaulted"
    then some emergency_vaulted
    else if str_eq s "unvaultemergencyvaulting"
    then some unvault_emergency_vaulting
    else if str_eq s "unvaultemergencyvaulted"
    then some unvault_emergency_vaulted
    else if str_eq s "spending"
    then some spending
    else if str_eq s "spent"
    then some spent
    else none

-- `==` of the derived `PartialEq`, and the comparison of the status column in SQL: both compare
-- the discriminants.
abbrev pub status_eq : VaultStatus → VaultStatus → Bool
status_eq a b = as_u32 a == as_u32 b
