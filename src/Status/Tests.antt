-- ===== src/Status/Tests.antt =====
-- The numbers and the texts of some statuses.
use revaultd.Prelude.{◌≡◌, ◌↔◌, some}
use revaultd.Status.{as_u32, try_from, display, from_str, canceling}
use revaultd.Status.Codes.{codes_iff}

codes_iff_example :
    ((try_from 8 ≡ some canceling) ↔ (8 ≡ as_u32 canceling))
    × ((from_str "canceling" ≡ some canceling) ↔ ("canceling" ≡ display canceling))
codes_iff_example = codes_iff 8 "canceling" canceling
