-- ===== src/Features/Trip.antt =====
-- Printing features and parsing them again, and setting them and getting them.
use libvzctl.Common.{
  Option-cases, zero, suc, ◌⊎◌, inl, inr, ℕ, ◌<◌, ◌≡◌, refl, Bool, true, false, not, ◌&&◌, ◌||◌,
  Option, none, some, List, [], ◌∷◌, arith, Str, All, str_eq, take, length, Bool-cases,
}
use libvzctl.Common.Errors.{e_inval}
use libvzctl.OnOff.{split_colon, tokens, parse_tokens, after, is_delim, onoff, onoff2id}
use libvzctl.OnOff.Trip.{
  has_bit, text, token_of, IsPlain, steps, print_items-text, parse_tokens-text, split_colon-token,
  length-print_items,
}
use libvzctl.Features.{
  turn_found, features, FeaturesParam, no_features, find_feature, known_items, features_mask2str,
  turn, parse_feature, parse_features, FeatureParam, check_features_mask, env_set_features,
  env_get_features,
}

-- The bit of a name, for the steps of the loop.
abbrev bit_of : Str → ℕ
bit_of name = elim (find_feature name) [ none ↦ 0 | some bit ↦ bit ]

abbrev step : FeaturesParam → Str × Bool → FeaturesParam
step f (name, v) = turn f (bit_of name) v

-- An entry of the table that is found by its name.
abbrev IsEntry : Str × ℕ → Type 0
IsEntry (name, bit) =
    IsPlain name × (find_feature (take 511 name) ≡ some bit) × (find_feature name ≡ some bit)

features-IsEntry : All IsEntry features
unfolding is_delim find_feature str_eq
features-IsEntry = (
  ((refl, (refl, (refl, (refl, (refl, tt))))), refl, refl),
  (
    ((refl, (refl, (refl, tt))), refl, refl),
    (
      ((refl, (refl, (refl, tt))), refl, refl),
      (
        ((refl, (refl, (refl, (refl, tt)))), refl, refl),
        (
          ((refl, (refl, (refl, tt))), refl, refl),
          (
            ((refl, (refl, (refl, (refl, (refl, tt))))), refl, refl),
            (
              ((refl, (refl, (refl, (refl, (refl, (refl, tt)))))), refl, refl),
              (((refl, (refl, (refl, (refl, tt)))), refl, refl), tt),
            ),
          ),
        ),
      ),
    ),
  ),
)

onoff2id-onoff : (v : Bool) → onoff2id (onoff v) ≡ some v
unfolding onoff2id str_eq
onoff2id-onoff true = refl
onoff2id-onoff false = refl

parse_feature-token :
    (f : FeaturesParam) (name : Str) (bit : ℕ) (v : Bool)
    → IsEntry (name, bit)
    → parse_feature f (token_of (name, v)) ≡ (0, step f (name, v))
unfolding parse_feature
parse_feature-token f name bit v (_, e, d) =
    rw (split_colon-token name v, parse_feature)
      (rw e (rw (onoff2id-onoff v) (rw (d, bit_of) refl)))

accepted :
    (f : FeaturesParam) (t : List (Str × ℕ))
    → All IsEntry t
    → All (λ x. IsPlain x.0) (known_items f t)
      × All
          (λ x. (g : FeaturesParam) → parse_feature g (token_of x) ≡ (0, step g x))
          (known_items f t)
accepted f [] h = (tt, tt)
accepted f ((name, bit) ∷ t) (a, h) = elim (Bool-cases (f.known bit)) [
  | inl y ↦
      rw (y, known_items)
        (
          (a.0, (accepted f t h).0),
          ((λ g. parse_feature-token g name bit (f.mask bit) a), (accepted f t h).1),
        )
  | inr n ↦ rw (n, known_items) (accepted f t h)
]

steps-known_items :
    (f g : FeaturesParam) (t : List (Str × ℕ)) (k : ℕ)
    → All IsEntry t
    → ((steps step g (known_items f t)).mask k ≡ (g.mask k || has_bit t k && f.known k && f.mask k))
      × ((steps step g (known_items f t)).known k ≡ (g.known k || has_bit t k && f.known k))
steps-known_items f g [] k h = (ground arith, ground arith)
steps-known_items f g ((name, bit) ∷ t) k (a, h) = elim (Bool-cases (f.known bit)) [
  | inl y ↦ ground (arith, steps-known_items f (turn g bit (f.mask bit)) t k h, a.2)
  | inr n ↦ ground (arith, steps-known_items f g t k h)
]

-- Features that `features_mask2str` prints into a buffer with room for all of them are read back by
-- `parse_features`: the bits of the table that were known are known again, with the values they had.
pub parse_features-features_mask2str :
    (f : FeaturesParam) (len k : ℕ)
    → length (text (known_items f features)) < len
    → ((parse_features no_features (features_mask2str f len)).0 ≡ 0)
      × ((parse_features no_features (features_mask2str f len)).1.mask k
          ≡ (has_bit features k && f.known k && f.mask k))
      × ((parse_features no_features (features_mask2str f len)).1.known k
          ≡ (has_bit features k && f.known k))
unfolding parse_features features_mask2str
parse_features-features_mask2str f len k h = rw (print_items-text len (known_items f features) h) (
    rw (read_back no_features)
      (let (m, n) = steps-known_items f no_features features k features-IsEntry in (refl, m, n)))
  where
    read_back :
        (g : FeaturesParam)
        → parse_features g (text (known_items f features))
          ≡ (0, steps step g (known_items f features))
    read_back g =
        unfold parse_features in
        let (p, a) = accepted f features features-IsEntry in
        parse_tokens-text parse_feature step (known_items f features) g p a

-- `features_mask2str` never writes behind its buffer, the NUL included.
pub length-features_mask2str :
    (f : FeaturesParam) (len : ℕ) → 0 < len → length (features_mask2str f len) < len
unfolding features_mask2str
length-features_mask2str f len h = length-print_items len (known_items f features) h

parse_feature-keeps :
    (f : FeaturesParam) (str : Str) (k : ℕ)
    → f.mask k ≡ true
    → (parse_feature f str).1.mask k ≡ true
unfolding parse_feature
parse_feature-keeps f str k h = elim (Option-cases (split_colon str)) [
  | inl n ↦ rw (n, parse_feature) h
  | inr ((name, id), e) ↦
      rw (e, parse_feature) (turned (find_feature (take 511 name)) (onoff2id id))
]
  where
    turned : (b : Option ℕ) (v : Option Bool) → (turn_found f b v).1.mask k ≡ true
    turned none v = h
    turned (some b) none = h
    turned (some b) (some true) = rw h refl
    turned (some b) (some false) = h

after_keeps :
    (P : FeaturesParam → Type 0) (p : ℕ × FeaturesParam) (rest : FeaturesParam → ℕ × FeaturesParam)
    → P p.1
    → ((g : FeaturesParam) → P g → P (rest g).1)
    → P (after p rest).1
after_keeps P (zero, g) rest h r = r g h
after_keeps P (suc e, g) rest h r = h

parse_tokens-keeps :
    (ts : List Str) (f : FeaturesParam) (k : ℕ)
    → f.mask k ≡ true
    → (parse_tokens parse_feature f ts).1.mask k ≡ true
unfolding parse_tokens
parse_tokens-keeps [] f k h = h
parse_tokens-keeps (t ∷ ts) f k h =
    after_keeps (λ g. g.mask k ≡ true) (parse_feature f t) (λ g. parse_tokens parse_feature g ts)
      (parse_feature-keeps f t k h) (λ g e. parse_tokens-keeps ts g k e)

-- No list of features turns off a feature that is on already, neither `name:off` nor an error.
pub parse_features-keeps :
    (f : FeaturesParam) (str : Str) (k : ℕ)
    → f.mask k ≡ true
    → (parse_features f str).1.mask k ≡ true
unfolding parse_features
parse_features-keeps f str k h = parse_tokens-keeps (tokens str) f k h

-- When `vzctl2_env_set_features` returns 0, `vzctl2_env_get_features` returns the mask `on` that was
-- set, and as `off` the bits that were set in `off` alone. When it fails, nothing changes.
pub env_get-set_features :
    (f : FeaturesParam) (param : FeatureParam) (k : ℕ)
    → ((env_set_features f param).0 ≡ 0)
        × ((env_get_features (env_set_features f param).1).on k ≡ param.on k)
        × ((env_get_features (env_set_features f param).1).off k
            ≡ (not (param.on k) && param.off k))
      ⊎ (env_set_features f param ≡ (e_inval, f))
unfolding env_set_features env_get_features
env_get-set_features f param k = elim (Bool-cases (check_features_mask param.on)) [
  | inl y ↦ inr (rw (y, env_set_features) refl)
  | inr n ↦ elim (Bool-cases (check_features_mask param.off)) [
    | inl y ↦ inr (rw (n, y, env_set_features) refl)
    | inr m ↦ inl (
      rw (n, m, env_set_features) refl,
      rw (n, m, env_set_features) refl,
      rw (n, m, env_set_features) (ground arith),
    )
  ]
]
