-- ===== src/Status/Codes.antt =====
-- The two encodings of a vault status, the integer of the database and the text of the RPC.
use Prim.Native.String.{String}
use text.Mathlib.Text.{◌==◌ as str_eq}
use text.Mathlib.TextEquality.{eq_iff}
use revaultd.Prelude.{ℕ, ◌≡◌, ◌↔◌, refl, true, some, Option, arith, if◌then◌else◌}
use revaultd.Status.{
  VaultStatus, as_u32, try_from, display, from_str, status_eq, unconfirmed, funded, securing,
  secured, activating, active, unvaulting, unvaulted, canceling, canceled, emergency_vaulting,
  emergency_vaulted, unvault_emergency_vaulting, unvault_emergency_vaulted, spending, spent,
}

try_from-as_u32 : (s : VaultStatus) → try_from (as_u32 s) ≡ some s
unfolding try_from
try_from-as_u32 unconfirmed = refl
try_from-as_u32 _ = refl

as_u32-try_from : (n : ℕ) (s : VaultStatus) → try_from n ≡ some s → n ≡ as_u32 s
unfolding try_from
as_u32-try_from n s h = ground arith

-- The parser of the status column accepts exactly the number that a status is stored as.
pub try_from_iff : (n : ℕ) (s : VaultStatus) → (try_from n ≡ some s) ↔ (n ≡ as_u32 s)
try_from_iff n s = (as_u32-try_from n s, λ e. rw e (try_from-as_u32 s))

from_str-display : (s : VaultStatus) → from_str (display s) ≡ some s
unfolding from_str display
from_str-display unconfirmed = refl
from_str-display _ = refl

-- One branch of the parser: its text is the one that its status is shown as.
pick :
    (t : String) (v s : VaultStatus) {rest : Option VaultStatus}
    → (rest ≡ some s → t ≡ display s)
    → (if str_eq t (display v) then some v else rest) ≡ some s
    → t ≡ display s
pick t v s next h = ground (arith, eq_iff t (display v))

display-from_str : (t : String) (s : VaultStatus) → from_str t ≡ some s → t ≡ display s
unfolding from_str display
display-from_str t s =
    (pick t unconfirmed s (
      pick t funded s (
        pick t securing s (
          pick t secured s (
            pick t activating s (
              pick t active s (
                pick t unvaulting s (
                  pick t unvaulted s (
                    pick t canceling s (
                      pick t canceled s (
                        pick t emergency_vaulting s (
                          pick t emergency_vaulted s (
                            pick t unvault_emergency_vaulting s (
                              pick t unvault_emergency_vaulted s
                                (pick t spending s (pick t spent s (λ h. cc)))))))))))))))))

-- The parser of the status parameter of the RPC accepts exactly the text that a status is shown as.
pub from_str_iff : (t : String) (s : VaultStatus) → (from_str t ≡ some s) ↔ (t ≡ display s)
from_str_iff t s = (display-from_str t s, λ e. rw e (from_str-display s))

-- The parser of the status column accepts exactly the number that a status is stored as, and the parser
-- of the status parameter of the RPC exactly the text that a status is shown as.
pub codes_iff :
    (n : ℕ) (t : String) (s : VaultStatus)
    → ((try_from n ≡ some s) ↔ (n ≡ as_u32 s)) × ((from_str t ≡ some s) ↔ (t ≡ display s))
codes_iff n t s = (try_from_iff n s, from_str_iff t s)

-- The test on statuses is equality.
pub status_eq→eq : (a b : VaultStatus) → status_eq a b ≡ true → a ≡ b
status_eq→eq a b h = cc (try_from-as_u32 a, try_from-as_u32 b, code)
  where
    code : as_u32 a ≡ as_u32 b
    code = ground arith

pub status_eq_refl : (a : VaultStatus) → status_eq a a ≡ true
status_eq_refl a = ground arith
