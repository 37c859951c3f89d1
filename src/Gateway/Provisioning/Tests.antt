-- ===== src/Gateway/Provisioning/Tests.antt =====
-- Examples of the checks of a binding request and of the file that is written.
use smart_parcel_station.Prelude.{
  ◌≤◌, String, true, false, Option, none, some, inr, List, [], ◌∷◌, ◌≡◌, refl, All, length, any,
  filter, str_eq, opt_str_is, str_eq_refl, arith,
}
use smart_parcel_station.Text.{strip, int_of_text}
use smart_parcel_station.Server.Examples.{example_runtime}
use smart_parcel_station.Gateway.Provisioning.{
  LocalHeaders, is_seen, max_nonce_cache, check_and_record_nonce, check_nonce, check_time,
  validate_local_timestamp, Values, line_key, value_of, setting, has_key, has_equals, before_equals,
  put_line, missing_lines, put_values, splitlines, join_lines, read_lines, upsert_env_values,
}
use smart_parcel_station.Gateway.Provisioning.Nonces.{
  PicksItem, IsFresh, record_all, check_and_record_nonce-length, check_and_record_nonce-replayed,
  validate_local_timestamp-IsFresh,
}
use smart_parcel_station.Gateway.Provisioning.Env.{IsEnv}
use smart_parcel_station.Gateway.Provisioning.File.{no_break, IsLine, upsert_env_values-IsEnv}

-- a set in the order in which its items came
abbrev first : List String → String
first [] = ""
first (n ∷ seen) = n

first-PicksItem : PicksItem first
unfolding is_seen any
first-PicksItem n [] = ground (arith, str_eq_refl n)
first-PicksItem n (m ∷ seen) = ground (arith, str_eq_refl m)

check_and_record_nonce-length_example :
    length (check_and_record_nonce first "n2" ("n1" ∷ [])).1 ≤ max_nonce_cache
check_and_record_nonce-length_example =
    check_and_record_nonce-length first "n2" ("n1" ∷ []) first-PicksItem (omega arith)

seen_before : is_seen "n2" ("n2" ∷ "n3" ∷ []) ≡ true
unfolding is_seen any str_eq
seen_before = refl

check_and_record_nonce-replayed_example :
    check_and_record_nonce first "n2" (record_all first ("n2" ∷ "n3" ∷ []) ("n1" ∷ []))
    ≡ (false, record_all first ("n2" ∷ "n3" ∷ []) ("n1" ∷ []))
check_and_record_nonce-replayed_example =
    check_and_record_nonce-replayed first "n2" ("n2" ∷ "n3" ∷ []) ("n1" ∷ []) (omega arith)
      (inr seen_before)

abbrev headers : LocalHeaders
headers = record { timestamp = some "1000"; nonce = some "n2"; body_sha256 = some "#{}" }

accepted :
    validate_local_timestamp first example_runtime 1100 headers "{}" ("n1" ∷ [])
    ≡ ((true, none), "n1" ∷ "n2" ∷ [])
unfolding validate_local_timestamp check_time check_nonce check_and_record_nonce is_seen any str_eq
    int_of_text
accepted = refl

validate_local_timestamp-IsFresh_example :
    IsFresh first example_runtime headers "{}" 1100 ("n1" ∷ []) ("n1" ∷ "n2" ∷ [])
validate_local_timestamp-IsFresh_example =
    validate_local_timestamp-IsFresh first example_runtime headers "{}" 1100 ("n1" ∷ []) accepted

abbrev values : Values
values = ("STATION_ID", "7") ∷ ("BINDING_STATUS", "BOUND") ∷ []

-- a file without a line feed at its end
abbrev file : Option String
file = some "# gateway\n BINDING_STATUS = UNBOUND\nLOG_LEVEL=INFO"

values-IsEnv : IsEnv values
unfolding line_key value_of str_eq strip has_equals before_equals
values-IsEnv = ((refl, refl), ((refl, refl), tt))

values-IsLine : All (λ (p : String × String). IsLine (setting p.0 p.1)) values
unfolding no_break
values-IsLine = (refl, (refl, tt))

station_there : value_of "STATION_ID" values ≡ some "7"
unfolding value_of str_eq
station_there = refl

file_after :
    upsert_env_values values file
    ≡ "# gateway\nBINDING_STATUS=BOUND\nLOG_LEVEL=INFO\nSTATION_ID=7\n"
unfolding upsert_env_values put_values read_lines splitlines join_lines put_line missing_lines
    has_key any line_key value_of str_eq strip has_equals before_equals
file_after = refl

upsert_env_values-IsEnv_example :
    (has_key "STATION_ID" (splitlines (upsert_env_values values file)) ≡ true)
    × All
        (λ line. line ≡ setting "STATION_ID" "7")
        (filter
          (λ line. opt_str_is (line_key line) "STATION_ID")
          (splitlines (upsert_env_values values file)))
    × (upsert_env_values values (some (upsert_env_values values file))
        ≡ upsert_env_values values file)
upsert_env_values-IsEnv_example =
    upsert_env_values-IsEnv values values-IsEnv values-IsLine file "STATION_ID" "7" station_there
