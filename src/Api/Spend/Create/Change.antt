-- ===== src/Api/Spend/Create/Change.antt =====
-- src/daemon/jsonrpc/api.rs: the arithmetic of the change output in `getspendtx`.
use revaultd.Prelude.{
  ◌↔◌, subst, Bool-cases, ℕ, ◌+◌, ◌*◌, ◌/◌, ◌^◌, ◌≤◌, ◌<◌, ◌≡◌, arith, false, some, inl, inr, ltb,
}
use revaultd.Api.Spend.Create.{
  wrap, checked, cpfp_overhead, is_much_lower, fees_of, change_from, change_of,
}

wrap-small : (n : ℕ) → n < 2 ^ 64 → wrap n ≡ n
wrap-small n h = omega arith

above-bounds :
    (dust_limit fees wanted value : ℕ)
    → dust_limit + cpfp_overhead < 2 ^ 64
    → change_from dust_limit fees (some wanted) ≡ some value
    → (dust_limit < value) × (value + cpfp_overhead + wanted ≡ fees)
above-bounds dust_limit fees wanted value small h = ground (arith, small, h)

from-bounds :
    (dust_limit fees vbyte value : ℕ)
    → dust_limit + cpfp_overhead < 2 ^ 64
    → change_from dust_limit fees (fees_of (checked vbyte)) ≡ some value
    → (dust_limit < value) × (vbyte < 2 ^ 64) × (value + cpfp_overhead + vbyte / 4 ≡ fees)
from-bounds dust_limit fees vbyte value small h = elim (Bool-cases (ltb vbyte (2 ^ 64))) [
  | inl e ↦
      let (above, sum) =
        above-bounds dust_limit fees (vbyte / 4) value small (ground (arith, h, e)) in
      (above, ground (arith, e), sum)
  | inr e ↦ absurd (ground (arith, h, e))
]

-- If `getspendtx` adds a change output, its value is above the dust limit, and with the overhead of
-- the CPFP output it is what the fees without a change exceed the wanted fees by. These are the
-- weight times the feerate for a virtual byte plus 3, divided by 4: up to three quarters of the weight
-- above the weight at this feerate. The product has not overflowed. The condition is that the feerate and the dust limit are not within 3, or the overhead, of the greatest `u64`.
pub change_of-bounds :
    (dust_limit weight fees feerate_vb value : ℕ)
    → feerate_vb + 3 < 2 ^ 64
    → dust_limit + cpfp_overhead < 2 ^ 64
    → change_of dust_limit weight fees feerate_vb ≡ some value
    → (dust_limit < value)
      × (weight * (feerate_vb + 3) < 2 ^ 64)
      × (value + cpfp_overhead + weight * (feerate_vb + 3) / 4 ≡ fees)
unfolding change_of
change_of-bounds dust_limit weight fees feerate_vb value small small' h =
    from-bounds dust_limit fees (weight * (feerate_vb + 3)) value small' (
      subst (λ n. change_from dust_limit fees (fees_of (checked (weight * n))) ≡ some value)
        {x = wrap (feerate_vb + 3)} {y = feerate_vb + 3} (wrap-small (feerate_vb + 3) small) h)

-- The guard on the feerate lets a Spend through exactly if its feerate is at least nine tenths of
-- the one asked for. The condition is that neither product overflows.
pub is_much_lower_iff :
    (nochange_feerate_vb feerate_vb : ℕ)
    → nochange_feerate_vb * 10 < 2 ^ 64
    → feerate_vb * 9 < 2 ^ 64
    → (is_much_lower nochange_feerate_vb feerate_vb ≡ false)
      ↔ (feerate_vb * 9 ≤ nochange_feerate_vb * 10)
is_much_lower_iff a b ha hb = ground (arith, wrap-small (a * 10) ha, wrap-small (b * 9) hb)
