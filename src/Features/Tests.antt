-- ===== src/Features/Tests.antt =====
-- The theorems on features at concrete inputs.
use libvzctl.Common.{◌||◌, ◌==◌}
use libvzctl.Features.{FeaturesParam, FeatureParam}

-- nfs on, ppp off.
abbrev some_features : FeaturesParam
some_features = record { mask = λ k. k == 1; known = λ k. k == 1 || k == 5 }

abbrev asked : FeatureParam
asked = record { on = λ k. k == 1; off = λ k. k == 5 }
