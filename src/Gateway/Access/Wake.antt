-- ===== src/Gateway/Access/Wake.antt =====
-- The loop of `handle_access_card` that wakes the tags of the parcels.
use smart_parcel_station.Prelude.{
  ℕ, String, Bool, true, false, ◌&&◌, ◌||◌, Option, none, some, List, [], ◌∷◌, ◌++◌, str_eq, ◌==◌,
  find_first, update_where, if◌then◌else◌,
}
use smart_parcel_station.Prelude.Int.{pos}
use smart_parcel_station.Text.{◌&◌}
use smart_parcel_station.Json.{number, text, object, Fields, end, entry, get, opt_text}
use smart_parcel_station.Session.{Action, pure, gets, draw, modify, ◌>>=◌, ◌>>◌}
use smart_parcel_station.Runtime.{Runtime}
use smart_parcel_station.Gateway.Enums.{TaskType, TaskTargetType}
use smart_parcel_station.Gateway.Entities.{LocalDb, LocalParcel, LocalParcelTagBinding, GatewayTask}
use smart_parcel_station.Gateway.Outside.{Outside, BleReply, reply, failure}
use smart_parcel_station.Gateway.Tasks.{create_task, mark_running, mark_done, mark_failed}
use smart_parcel_station.Gateway.Access.{opt_is_text, is_binding_active, woken, WakeItem}

module _ (rt : Runtime) (out : Outside) where
  -- the answer of the tag: the task is marked, and the result and the answer are returned
  unfoldable pub settle_wake : String → GatewayTask → BleReply → Action LocalDb (String × Fields)
  settle_wake tag_id task (failure message) = do
    mark_failed rt out task message
    pure (
      "FAILED",
      entry "tag_id" (text tag_id)
          (entry "result" (text "FAILED") (entry "error" (text message) end)),
    )
  settle_wake tag_id task (reply answer) =
      if opt_is_text (get "result" answer) "OK"
      then (do mark_done rt out task; pure ("OK", answer))
      else (do mark_failed rt out task (out.dumps false (object answer)); pure ("FAILED", answer))

  -- the body of the loop for a parcel with a binding; returns the item and the warnings
  unfoldable pub wake_bound :
      String
      → String
      → ℕ
      → LocalParcel
      → LocalParcelTagBinding
      → Action LocalDb (WakeItem × List String × Bool)
  unfolding settle_wake
  wake_bound session_id color now parcel binding = do
    task ←
        create_task rt out TaskType.tag_wake TaskTargetType.tag
          (entry "pickup_session_id" (text session_id) (
            entry "tag_id" (text binding.tag_id) (
              entry "parcel_code" (text parcel.parcel_code) (
                entry "shelf_code" (opt_text parcel.shelf_code) (
                  entry "led_color" (text color) (
                    entry "blink_pattern" (text "SLOW") (
                      entry "beep_pattern" (text "SHORT_INTERVAL")
                        (entry "duration_sec" (number (pos 30)) end))))))))
          (some binding.tag_id) 100
    mark_running rt out task
    answer ← draw (λ n. out.tag_wake n binding.tag_id color session_id)
    (wake_result, ble_result) ← settle_wake binding.tag_id task answer
    modify (λ db. record db {
      local_parcel_tag_bindings =
          update_where (λ b. b.id == binding.id) (woken session_id color now)
            db.local_parcel_tag_bindings;
    })
    pure (
      record {
        parcel_code = parcel.parcel_code;
        shelf_code = parcel.shelf_code;
        tag_id = some binding.tag_id;
        wake_result = wake_result;
        ble_result = some ble_result;
      },
      (if str_eq wake_result "OK" then [] else ("TAG_WAKE_FAILED:" & binding.tag_id) ∷ []),
      true,
    )

  -- the body of the loop, by the binding that is found
  unfoldable pub wake_parcel :
      String
      → String
      → ℕ
      → LocalParcel
      → Option LocalParcelTagBinding
      → Action LocalDb (WakeItem × List String × Bool)
  unfolding wake_bound
  wake_parcel session_id color now parcel none = pure (
    record {
      parcel_code = parcel.parcel_code;
      shelf_code = parcel.shelf_code;
      tag_id = none;
      wake_result = "NO_ACTIVE_TAG_BINDING";
      ble_result = none;
    },
    ("NO_ACTIVE_TAG_BINDING:" & parcel.parcel_code) ∷ [],
    false,
  )
  wake_parcel session_id color now parcel (some binding) =
      wake_bound session_id color now parcel binding

  -- the loop: the items, the warnings, and whether a task was started
  unfoldable pub wake_parcels :
      String → String → ℕ → List LocalParcel → Action LocalDb (List WakeItem × List String × Bool)
  unfolding wake_parcel
  wake_parcels session_id color now [] = pure ([], [], false)
  wake_parcels session_id color now (parcel ∷ parcels) = do
    binding ← gets (λ db.
        find_first
          (λ b. str_eq b.server_parcel_id parcel.server_parcel_id && is_binding_active b.status)
          db.local_parcel_tag_bindings)
    (item, warned, started) ← wake_parcel session_id color now parcel binding
    (items, warnings, others) ← wake_parcels session_id color now parcels
    pure (item ∷ items, warned ++ warnings, started || others)
