-- ===== src/Server/Cards/Tests.antt =====
-- Examples of the card operations.
use smart_parcel_station.Prelude.{
  Option, none, some, List, [], ◌∷◌, ◌≡◌, refl, filter, find_first, any, ◌==◌, str_eq,
}
use smart_parcel_station.Session.{Result, ok, Session, opened, for_each}
use smart_parcel_station.Text.{upper, strip}
use smart_parcel_station.Server.Events.{queue_for, queue_station_event}
use smart_parcel_station.Server.Enums.{UserRole, AccessCredentialType, AccessCredentialStatus}
use smart_parcel_station.Server.Models.{Db, UserAccessCredential}
use smart_parcel_station.Server.Cards.{
  is_current, new_card, replaced_by, add_card, retire_card, check_binding, store_binding,
  bind_user_card, report_card_lost,
}
use smart_parcel_station.Server.Cards.Lifecycle.{IsKeyed}
use smart_parcel_station.Server.Cards.Safety.{bind_user_card-current}
use smart_parcel_station.Server.Cards.Retiring.{IsReported, report_card_lost_cases}
use smart_parcel_station.Server.Cards.History.{
  CardRequest, bind, report_lost, disable, serve_all, retired_stays,
}
use smart_parcel_station.Server.Examples.{
  example_runtime, example_runtime-AssignsFresh, example_user, example_card, example_db,
}

abbrev cards : List UserAccessCredential
cards =
    example_card 1 "AA" AccessCredentialStatus.active
    ∷ example_card 2 "BB" AccessCredentialStatus.lost
    ∷ []

cards-IsKeyed : IsKeyed cards
unfolding any
cards-IsKeyed = (refl, (refl, tt))

abbrev bound : Result (UserAccessCredential × Option UserAccessCredential) × Session Db
bound =
    bind_user_card example_runtime 1 7 AccessCredentialType.card_uid " cc" none
      (example_user 2 UserRole.staff) (opened (example_db cards) 0)

abbrev bound_card : UserAccessCredential
bound_card =
    new_card example_runtime 1 7 AccessCredentialType.card_uid "CC" none
      (example_user 2 UserRole.staff) cards

bound-ok :
    bound.0
    ≡ ok (
      bound_card,
      some (replaced_by bound_card.id 1000 (example_card 1 "AA" AccessCredentialStatus.active)),
    )
unfolding bind_user_card check_binding store_binding add_card retire_card filter find_first any
    str_eq upper strip queue_station_event for_each queue_for
bound-ok = refl

bind_user_card-current_example :
    filter (is_current 1 7) bound.1.saved.user_access_credentials ≡ bound_card ∷ []
bind_user_card-current_example =
    bind_user_card-current example_runtime example_runtime-AssignsFresh 1 7 " cc" none
      (example_user 2 UserRole.staff) AccessCredentialType.card_uid (example_db cards) 0 bound_card
      (some (replaced_by bound_card.id 1000 (example_card 1 "AA" AccessCredentialStatus.active)))
      cards-IsKeyed bound-ok

abbrev requests : List CardRequest
requests =
    report_lost (example_user 1 UserRole.user) 1 "stolen"
    ∷ bind 1 7 AccessCredentialType.card_uid "BB" none (example_user 2 UserRole.staff)
    ∷ bind 1 7 AccessCredentialType.card_uid "DD" none (example_user 2 UserRole.staff)
    ∷ disable 1 2 "old" (example_user 2 UserRole.staff)
    ∷ []

retired_stays_example :
    find_first
      (λ c. c.id == 2)
      (serve_all example_runtime requests
        (opened (example_db cards) 0)).saved.user_access_credentials
    ≡ some (example_card 2 "BB" AccessCredentialStatus.lost)
unfolding find_first
retired_stays_example =
    retired_stays example_runtime example_runtime-AssignsFresh requests (example_db cards) 0 2
      (example_card 2 "BB" AccessCredentialStatus.lost) cards-IsKeyed refl refl

report_card_lost_cases_example :
    IsReported example_runtime "stolen" (example_db cards) 0 (example_user 1 UserRole.user) 1 (
      report_card_lost example_runtime
        (example_user 1 UserRole.user)
        1
        "stolen"
        (opened (example_db cards) 0))
report_card_lost_cases_example =
    report_card_lost_cases example_runtime "stolen" (example_db cards) 0
      (example_user 1 UserRole.user) 1
