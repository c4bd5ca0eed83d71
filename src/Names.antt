-- ===== src/Names.antt =====
-- Names and words of lib/util.c: `check_name` and its callers, yes and no, the container types, and
-- the suffixes of sizes.
mod Tests
use libvzctl.Common.{
  ℕ, ◌^◌, ◌≡◌, refl, Bool, true, false, ◌&&◌, ◌||◌, Option, none, some, [], ◌∷◌, ltb, leb, ◌==◌,
  if◌then◌else◌, Str, codes, str_eq, str_eq_iff, length, arith,
}

-- `strchr(extra, c) != NULL`, for a byte that is not NUL.
unfoldable pub has_byte : Str → ℕ → Bool
has_byte [] c = false
has_byte (d ∷ s) c = d == c || has_byte s c

-- One round of the loop of `check_name`.
unfoldable pub is_name_byte : Str → ℕ → Bool
unfolding has_byte
is_name_byte extra c =
    leb 127 c
    || (leb b'0' c && leb c b'9')
    || (leb b'A' c && leb c b'Z')
    || (leb b'a' c && leb c b'z')
    || has_byte extra c

unfoldable pub are_name_bytes : Str → Str → Bool
unfolding is_name_byte
are_name_bytes extra [] = true
are_name_bytes extra (c ∷ s) = is_name_byte extra c && are_name_bytes extra s

-- `check_name`: 1 is true.
unfoldable pub check_name : (name extra : Str) → (len : ℕ) → Bool
unfolding are_name_bytes
check_name [] extra len = false
check_name (c ∷ name) extra len =
    if ltb len (length (c ∷ name)) then false else are_name_bytes extra (c ∷ name)

abbrev name_max : ℕ
name_max = 255

unfoldable pub is_env_name_valid : Str → Bool
unfolding check_name
is_env_name_valid name = check_name name (codes " +-_.{}") name_max

pub is_networkid_valid : Str → Bool
unfolding check_name
is_networkid_valid name = check_name name (codes "#() -_.") 64

pub is_str_valid : Str → Bool
unfolding check_name
is_str_valid name = check_name name (codes "-_.") name_max

-- `yesno2id`: VZCTL_PARAM_ON is true, VZCTL_PARAM_OFF is false, and -1 is none.
unfoldable pub yesno2id : Option Str → Option Bool
unfolding str_eq
yesno2id none = none
yesno2id (some s) =
    if str_eq s (codes "yes") then some true else if str_eq s (codes "no") then some false else none

unfoldable pub id2yesno : Bool → Str
id2yesno true = codes "yes"
id2yesno false = codes "no"

-- `ve_type`, with `ve_type_custom`.
pub data EnvType : Type 0 where
  regular temporary template : EnvType
  custom : Str → EnvType

-- `str2env_type`, when the copy of the string works.
pub str2env_type : Str → EnvType
unfolding str_eq
str2env_type s =
    if str_eq s (codes "regular")
    then regular
    else if str_eq s (codes "temporary")
    then temporary
    else if str_eq s (codes "template")
    then template
    else custom s

pub env_type2str : EnvType → Str
env_type2str regular = codes "regular"
env_type2str temporary = codes "temporary"
env_type2str template = codes "template"
env_type2str (custom s) = s

-- `get_mul`: the factor of a suffix; -1 is none.
unfoldable pub get_mul : ℕ → Option ℕ
get_mul c =
    if c == b'T' || c == b't'
    then some (1024 ^ 4)
    else if c == b'G' || c == b'g'
    then some (1024 ^ 3)
    else if c == b'M' || c == b'm'
    then some (1024 ^ 2)
    else if c == b'K' || c == b'k'
    then some 1024
    else if c == b'B' || c == b'b'
    then some 1
    else none

-- A container type keeps its name.
pub env_type2str-str2env_type : (s : Str) → env_type2str (str2env_type s) ≡ s
unfolding str2env_type env_type2str
env_type2str-str2env_type s = ground (
  arith,
  str_eq_iff s (codes "regular"),
  str_eq_iff s (codes "temporary"),
  str_eq_iff s (codes "template"),
)

pub yesno2id-id2yesno : (b : Bool) → yesno2id (some (id2yesno b)) ≡ some b
unfolding yesno2id id2yesno
yesno2id-id2yesno true = refl
yesno2id-id2yesno false = refl
