-- ===== src/Gateway/SecurityAudit/Tests.antt =====
-- An example of two events with different secrets.
use smart_parcel_station.Prelude.{String, false, none, some, ◌≡◌, refl, any, str_eq, arith}
use smart_parcel_station.Prelude.Int.{pos}
use smart_parcel_station.Json.{Fields, number, text, end, entry}
use smart_parcel_station.Session.{opened}
use smart_parcel_station.Server.Examples.{example_runtime}
use smart_parcel_station.Gateway.Examples.{example_outside, empty_db}
use smart_parcel_station.Gateway.SecurityAudit.{is_sensitive, record_event}
use smart_parcel_station.Gateway.SecurityAudit.Redacted.{SamePublic, record_event-SamePublic}

abbrev with_secret : String → Fields
with_secret secret =
    entry "gateway_code" (text "GW1")
      (entry "token" (text secret) (entry "tries" (number (pos 2)) end))

same_public : SamePublic (with_secret "abc") (with_secret "xyz")
unfolding is_sensitive any str_eq
same_public = (
  refl,
  λ h. refl,
  (refl, λ (h : is_sensitive "token" ≡ false). ground (arith, h), (refl, λ h. refl, tt)),
)

record_event-SamePublic_example :
    record_event example_runtime example_outside "replay_detected" none none none none none
      (some (with_secret "abc"))
      (opened empty_db 0)
    ≡ record_event example_runtime example_outside "replay_detected" none none none none none
        (some (with_secret "xyz"))
        (opened empty_db 0)
record_event-SamePublic_example =
    record_event-SamePublic example_runtime example_outside "replay_detected" none none none none
      none (with_secret "abc") (with_secret "xyz") (opened empty_db 0) same_public
