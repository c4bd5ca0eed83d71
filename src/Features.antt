-- ===== src/Features.antt =====
-- lib/vzfeatures.c: the features of a container, as masks, and their list `name:on name:off`.
mod Trip
mod Tests
use libvzctl.Common.{
  zero, suc, ℕ, Bool, true, false, not, ◌&&◌, ◌||◌, Option, none, some, List, [], ◌∷◌, Str, codes,
  str_eq, take, ltb, ◌==◌, if◌then◌else◌,
}
use libvzctl.Common.Errors.{e_inval}
use libvzctl.OnOff.{
  Mask, no_bits, set_bit, split_colon, onoff2id, print_items, tokens, parse_tokens,
}

-- `features`, with the bits of the masks VZ_FEATURE_SYSFS and so on.
abbrev pub features : List (Str × ℕ)
features =
    (codes "sysfs", 0)
    ∷ (codes "nfs", 1)
    ∷ (codes "sit", 3)
    ∷ (codes "ipip", 4)
    ∷ (codes "ppp", 5)
    ∷ (codes "ipgre", 6)
    ∷ (codes "bridge", 7)
    ∷ (codes "nfsd", 8)
    ∷ []

-- The masks `mask` and `known` of `struct vzctl_features_param`.
pub record FeaturesParam : Type 0 where
  pub mask : Mask
  pub known : Mask

abbrev pub no_features : FeaturesParam
no_features = record { mask = no_bits; known = no_bits }

find_from : List (Str × ℕ) → Str → Option ℕ
find_from [] name = none
find_from ((n, bit) ∷ t) name = if str_eq name n then some bit else find_from t name

pub find_feature : Str → Option ℕ
unfolding find_from
find_feature name = find_from features name

-- The pieces that `features_mask2str` prints.
abbrev pub known_items : FeaturesParam → List (Str × ℕ) → List (Str × Bool)
known_items f [] = []
known_items f ((n, bit) ∷ t) =
    let rest = known_items f t in if f.known bit then (n, f.mask bit) ∷ rest else rest

pub features_mask2str : FeaturesParam → ℕ → Str
unfolding print_items
features_mask2str f len = print_items len (known_items f features)

-- The masks after a feature is read: its bit in `mask` is set if it is on, and never cleared.
abbrev pub turn : FeaturesParam → ℕ → Bool → FeaturesParam
turn f bit on = record {
  mask = if on then set_bit f.mask bit else f.mask;
  known = set_bit f.known bit;
}

turn_found : FeaturesParam → Option ℕ → Option Bool → ℕ × FeaturesParam
turn_found f none id = (e_inval, f)
turn_found f (some bit) none = (e_inval, f)
turn_found f (some bit) (some on) = (0, turn f bit on)

-- `parse_feature`, with its name buffer of STR_SIZE bytes.
pub parse_feature : FeaturesParam → Str → ℕ × FeaturesParam
unfolding split_colon find_feature onoff2id turn_found
parse_feature f str = elim (split_colon str) [
  | none ↦ (e_inval, f)
  | some (name, id) ↦ turn_found f (find_feature (take 511 name)) (onoff2id id)
]

-- `parse_features`, when its copy of the string is made.
pub parse_features : FeaturesParam → Str → ℕ × FeaturesParam
unfolding tokens parse_tokens parse_feature
parse_features f str = parse_tokens parse_feature f (tokens str)

-- The masks of `struct vzctl_feature_param`.
pub record FeatureParam : Type 0 where
  pub on : Mask
  pub off : Mask

-- The mask that the loop of `check_features_mask` collects.
known_bits : List (Str × ℕ) → Mask
known_bits [] = no_bits
known_bits ((n, bit) ∷ t) = λ k. bit == k || known_bits t k

-- Whether a mask has one of the bits below `width` that `known_bits` has not.
has_unknown : ℕ → Mask → Bool
unfolding known_bits
has_unknown zero mask = false
has_unknown (suc k) mask = mask k && not (known_bits features k) || has_unknown k mask

-- `check_features_mask`: `(known | mask) != known` on the 64 bits of a mask.
pub check_features_mask : Mask → Bool
unfolding has_unknown
check_features_mask mask = has_unknown 64 mask

-- `vzctl2_env_set_features` and `vzctl2_env_get_features`.
pub env_set_features : FeaturesParam → FeatureParam → ℕ × FeaturesParam
unfolding check_features_mask
env_set_features f param =
    if check_features_mask param.on
    then (e_inval, f)
    else if check_features_mask param.off
    then (e_inval, f)
    else (0, record { mask = param.on; known = λ k. param.on k || param.off k })

pub env_get_features : FeaturesParam → FeatureParam
env_get_features f = record { on = f.mask; off = λ k. not (f.mask k) && f.known k }
