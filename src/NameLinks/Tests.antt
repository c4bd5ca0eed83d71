-- ===== src/NameLinks/Tests.antt =====
-- Names of two containers.
use libvzctl.Common.{
  ◌≡◌, refl, true, false, none, some, [], Str, codes, str_eq, str_eq_no, arith, ◌||◌, if◌then◌else◌,
}
use libvzctl.Names.{is_env_name_valid, check_name, are_name_bytes, is_name_byte, has_byte}
use libvzctl.NameLinks.{
  NameState, NameCalls, NameHandle, parse_ctid, parse_veid, id_of_conf, id_of_link,
  get_envid_by_name, is_of_other, validate_given, validate_env_name, without_link, with_link,
  write_conf, name_save, drop_old, name_del, name_link, is_same_name, vz_set_name,
}
use libvzctl.NameLinks.Lookup.{IsParser}
use libvzctl.NameLinks.Safe.{vz_set_name-others}
use libvzctl.NameLinks.Assign.{vz_set_name-found, vz_set_name_unsaved}

abbrev web_id : Str
web_id = codes "101"

abbrev db_id : Str
db_id = codes "102"

-- The parser knows the ids of the two containers.
abbrev calls : NameCalls
calls = record {
  pair = λ v b. if str_eq v (codes "101") || str_eq v (codes "102") then (true, v) else (false, b);
  bad_conf = λ id. false;
  bad_name = λ n. false;
  bad_open = λ n. false;
  linked = true;
  saved = 0;
  replaced = false;
  unset = [];
}

abbrev unsaved_calls : NameCalls
unsaved_calls = record calls { saved = 31 }

abbrev two_names : NameState
two_names = record {
  links = λ n.
      if str_eq n (codes "web")
      then some web_id
      else if str_eq n (codes "db")
      then some db_id
      else none;
  confs = λ id.
      if str_eq id web_id
      then some (record { name = some (codes "web"); veid = some web_id })
      else if str_eq id db_id
      then some (record { name = some (codes "db"); veid = some db_id })
      else none;
}

abbrev web : NameHandle
web = record { eid = web_id; old_name = some (codes "web") }

calls-IsParser : IsParser calls
calls-IsParser v b b' e = ground (arith, e)

unsaved_calls-IsParser : IsParser unsaved_calls
unsaved_calls-IsParser v b b' e = ground (arith, e)

vz_set_name-others_example :
    get_envid_by_name calls
      (vz_set_name calls web two_names (some (codes "www"))).state
      (codes "db")
      []
    ≡ (true, db_id)
unfolding str_eq parse_veid parse_ctid get_envid_by_name id_of_link id_of_conf
vz_set_name-others_example =
    vz_set_name-others calls web two_names (some (codes "www")) (codes "db") [] db_id calls-IsParser
      (record { name = some (codes "web"); veid = some web_id }, refl, λ b. refl)
      (str_eq_no db_id web_id refl) (str_eq_no db_id [] refl) refl

vz_set_name-found_example :
    get_envid_by_name calls
      (vz_set_name calls web two_names (some (codes "www"))).state
      (codes "www")
      []
    ≡ (true, web_id)
unfolding str_eq parse_veid parse_ctid get_envid_by_name id_of_link id_of_conf vz_set_name
    validate_env_name validate_given is_of_other is_same_name name_link name_del name_save drop_old
    without_link with_link write_conf is_env_name_valid check_name are_name_bytes is_name_byte
    has_byte
vz_set_name-found_example =
    vz_set_name-found calls web two_names b'w' (codes "ww") []
      (record { name = some (codes "web"); veid = some web_id }, refl, λ t. refl) (λ id. refl) refl
      refl (λ q. str_eq_no (codes "web") (codes "www") refl (some_inj q)) refl
  where
    some_inj : {a b : Str} → some a ≡ some b → a ≡ b
    some_inj q = cc

vz_set_name_unsaved_example :
    ((vz_set_name unsaved_calls web two_names (some (codes "www"))).ret ≡ 31)
    × ((vz_set_name unsaved_calls web two_names (some (codes "www"))).state.links (codes "www")
        ≡ none)
    × ((vz_set_name unsaved_calls web two_names (some (codes "www"))).state.links (codes "web")
        ≡ none)
    × ((vz_set_name unsaved_calls web two_names (some (codes "www"))).state.confs ≡ two_names.confs)
unfolding str_eq parse_veid parse_ctid get_envid_by_name id_of_link id_of_conf validate_env_name
    validate_given is_of_other is_env_name_valid check_name are_name_bytes is_name_byte has_byte
vz_set_name_unsaved_example =
    vz_set_name_unsaved unsaved_calls web two_names b'w' (codes "ww") (codes "web")
      unsaved_calls-IsParser refl (str_eq_no (codes "web") (codes "www") refl) refl refl refl
      (λ q. ground (arith, q))
