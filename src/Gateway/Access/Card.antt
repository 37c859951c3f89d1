-- ===== src/Gateway/Access/Card.antt =====
-- `handle_access_card` of smartparcel-gateway/gateway/services/access_control_service.py.
use smart_parcel_station.Prelude.{
  ℕ, ◌+◌, String, true, Option, none, some, List, [], ◌∷◌, ◌++◌, map, length, is_present, or_empty,
  or_text, ◌==◌, filter, find_first, update_where, if◌then◌else◌,
}
use smart_parcel_station.Prelude.Int.{pos}
use smart_parcel_station.Text.{◌&◌, str_of}
use smart_parcel_station.Json.{flag, number, text, array, end, entry, texts}
use smart_parcel_station.Session.{
  crash, Action, pure, raise, gets, draw, modify, commit, when, ◌>>=◌, ◌>>◌,
}
use smart_parcel_station.Runtime.{Runtime}
use smart_parcel_station.Gateway.Enums.{CredentialType, PickupEventType, PickupSessionStatus}
use smart_parcel_station.Gateway.Entities.{LocalDb, LocalParcel, LocalNfcCredential}
use smart_parcel_station.Gateway.Outside.{Outside}
use smart_parcel_station.Gateway.Access.{
  Access, granted, join, items_json, tag_refs, normalize_credential_type, is_credential,
  is_waiting_for, record_local_pickup_event, enqueue_audit, deny, choose_session_color,
}
use smart_parcel_station.Gateway.Access.Wake.{wake_parcels}

-- `[parcel.shelf_code or "未上架" for parcel in parcels]`
shelves_of : List LocalParcel → List String
shelves_of [] = []
shelves_of (p ∷ rest) = or_empty (or_text p.shelf_code (some "未上架")) ∷ shelves_of rest

-- `_resolved_user_id or credential.user_id`
user_of : Option LocalNfcCredential → Option String → Action LocalDb (Option String)
user_of none resolved =
    if is_present resolved then pure resolved else raise (crash "AttributeError")
user_of (some credential) resolved =
    pure (if is_present resolved then resolved else credential.user_id)

module _ (rt : Runtime) (out : Outside)
    (station_id reader_id credential_type credential_value : String) where
  -- the pickup session that is stored; returns its key
  open_session : Option String → String → String → ℕ → List String → String → ℕ → Action LocalDb ℕ
  open_session user_id session_id color count shelves display_text now = do
    rows ← gets (λ db. db.local_pickup_sessions)
    let id = rt.next_id (map (λ s. s.id) rows)
    modify (λ db. record db {
      local_pickup_sessions =
          db.local_pickup_sessions
          ++ record {
            id = id;
            session_id = session_id;
            user_id = user_id;
            station_id = station_id;
            credential_type = some credential_type;
            credential_value = some credential_value;
            session_color = color;
            pickup_count = count;
            shelf_summary = some (join " / " shelves);
            display_text = display_text;
            status = PickupSessionStatus.active;
            expires_at = some (now + 30);
          }
            ∷ [];
    })
    commit
    pure id

  -- the branch of a user with parcels
  unfoldable pub grant_access : Option String → List LocalParcel → Action LocalDb Access
  unfolding open_session shelves_of
  grant_access user_id parcels = do
    uuid ← draw rt.uuid_hex
    let session_id = "sess_" & uuid
    (color, color_name) ← choose_session_color rt out station_id
    let shelves = shelves_of parcels
    let count = length parcels
    let text_of_tags = "待取" & str_of count & "件｜" & color_name & "闪烁｜" & join " " shelves
    let text_of_shelves = "待取" & str_of count & "件｜请按货架号取件｜" & join " " shelves
    expires ← draw rt.clock
    id ← open_session user_id session_id color count shelves text_of_tags expires
    now ← draw rt.clock
    (items, woken_warnings, started) ← wake_parcels rt out session_id color now parcels
    let warnings =
        if started then woken_warnings else woken_warnings ++ "NO_ACTIVE_TAG_BINDING" ∷ []
    let display_text = if started then text_of_tags else text_of_shelves
    modify (λ db. record db {
      local_pickup_sessions =
          update_where (λ s. s.id == id) (λ s. record s { display_text = display_text })
            db.local_pickup_sessions;
    })
    let payload = entry "allowed" (flag true) (
        entry "reader_id" (text reader_id) (
          entry "credential_type" (text credential_type) (
            entry "credential_hash" (text (rt.sha256 credential_value)) (
              entry "pickup_session_id" (text session_id) (
                entry "pickup_count" (number (pos count)) (
                  entry "session_color" (text color) (
                    entry "shelves" (array (texts shelves)) (
                      entry "items" (array (items_json items))
                        (entry "warnings" (array (texts warnings)) end)))))))))
    record_local_pickup_event rt out station_id PickupEventType.nfc_access payload user_id
    enqueue_audit rt out station_id "NFC_ACCESS_GRANTED" payload
    when started (
        enqueue_audit rt out station_id "TAG_WAKE_STARTED" (
          entry "reader_id" (text reader_id) (
            entry "pickup_session_id" (text session_id) (
              entry "session_color" (text color) (
                entry "tag_refs" (array (texts (tag_refs items))) (
                  entry "shelves" (array (texts shelves))
                    (entry "pickup_count" (number (pos count)) end)))))))
    commit
    pure (
        granted (record {
          user_id = user_id;
          pickup_session_id = session_id;
          pickup_count = count;
          session_color = color;
          color_display_name = color_name;
          shelves = shelves;
          display_text = display_text;
          items = items;
          warnings = warnings;
        }))

  -- by the waiting parcels of the user
  unfoldable pub admit : Option String → List LocalParcel → Action LocalDb Access
  admit user_id [] =
      deny rt out station_id reader_id credential_type credential_value "NO_WAITING_PARCEL" "暂无待取包裹"
        user_id
  admit user_id (parcel ∷ parcels) = grant_access user_id (parcel ∷ parcels)

  -- the answer where no card is found
  abbrev pub deny_unknown : Action LocalDb Access
  deny_unknown =
      deny rt out station_id reader_id credential_type credential_value "CREDENTIAL_NOT_FOUND"
        "未识别用户卡" none

  -- by the card that is found
  unfoldable pub admit_card : Option LocalNfcCredential → Option String → Action LocalDb Access
  unfolding user_of
  admit_card none none = deny_unknown
  admit_card none (some resolved) = do
    user_id ← user_of none (some resolved)
    parcels ← gets (λ db. filter (is_waiting_for rt out station_id user_id) db.local_parcels)
    admit user_id parcels
  admit_card (some credential) resolved = do
    user_id ← user_of (some credential) resolved
    parcels ← gets (λ db. filter (is_waiting_for rt out station_id user_id) db.local_parcels)
    admit user_id parcels

  -- by the type of the card
  unfoldable pub admit_type : Option CredentialType → Option String → Action LocalDb Access
  admit_type none resolved = deny_unknown
  admit_type (some kind) resolved = do
    credential ← gets (λ db.
        find_first (is_credential rt out station_id kind credential_value) db.local_nfc_credentials)
    admit_card credential resolved

  unfoldable pub handle_access_card : Option String → Action LocalDb Access
  handle_access_card resolved = admit_type (normalize_credential_type credential_type) resolved
