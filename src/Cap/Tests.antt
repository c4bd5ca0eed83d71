-- ===== src/Cap/Tests.antt =====
-- The theorems on capabilities at concrete inputs.
use libvzctl.Common.{ℕ, ◌≡◌, refl, true, not, ◌&&◌, arith, leb, ◌==◌, if◌then◌else◌}
use libvzctl.OnOff.Trip.{has_bit}
use libvzctl.Cap.{
  cap_names, CapParam, no_caps, build_cap_str, parse_cap, make_cap_mask, default_mask, Drop,
  dropped, drop_inval, bound_set, set_cap_bound,
}
use libvzctl.Cap.Trip.{parse_cap-build_cap_str}

-- NET_ADMIN on, MKNOD off.
abbrev caps : CapParam
caps = record { on = λ k. k == 12; off = λ k. k == 27 }

parse_cap-build_cap_str_example :
    ((parse_cap no_caps (build_cap_str caps 100) true).0 ≡ 0)
    × ((parse_cap no_caps (build_cap_str caps 100) true).1.on 12
        ≡ (has_bit cap_names 12 && caps.on 12))
    × ((parse_cap no_caps (build_cap_str caps 100) true).1.off 12
        ≡ (has_bit cap_names 12 && not (caps.on 12) && caps.off 12))
parse_cap-build_cap_str_example = parse_cap-build_cap_str caps no_caps 100 12 (omega arith)

-- A kernel with 41 capabilities.
abbrev kernel : ℕ → Drop
kernel i = if leb i 40 then dropped else drop_inval

bound_ret : (set_cap_bound kernel default_mask).0 ≡ bound_set
unfolding set_cap_bound default_mask
bound_ret = refl

mask_12 : make_cap_mask default_mask no_caps.on no_caps.off 12 ≡ default_mask 12
unfolding make_cap_mask default_mask
mask_12 = refl
