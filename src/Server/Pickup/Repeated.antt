-- ===== src/Server/Pickup/Repeated.antt =====
-- A confirmation that is sent again.
use smart_parcel_station.Prelude.{
  ℕ, String, true, false, Option, some, [], ◌∷◌, ◌≡◌, refl, sym, ap, str_eq, str_eq_refl, ◌==◌,
  ==-refl, filter, filter-append, filter-update_where, find_first, update_where, arith,
}
use smart_parcel_station.Session.{ok, err, http, Session, opened}
use smart_parcel_station.Runtime.{Runtime}
use smart_parcel_station.Server.Models.{Db, Parcel, ParcelTagBinding, PickupEvent}
use smart_parcel_station.Server.Pickup.{
  released, check_pickup, pickup_event, confirm_event, pickup_confirm,
}
use smart_parcel_station.Server.Pickup.Confirmed.{pickup_confirm-ok}

module _ (rt : Runtime) (user_id : ℕ) (event_id tag_id encrypted_token pickup_binding_id : String)
    (db : Db) (n : ℕ) (p : Option Parcel) (e : PickupEvent) (t : Session Db)
    (done : pickup_confirm rt user_id event_id tag_id encrypted_token pickup_binding_id
        (opened db n)
      ≡ (ok (p, some e, false), t)) where
  -- the one event with the id
  event-alone : filter (λ e. str_eq e.event_id event_id) t.saved.pickup_events ≡ e ∷ []
  unfolding filter
  event-alone =
      let ((binding, tag, parcel, entitled, fresh, stored), new) =
        pickup_confirm-ok rt user_id event_id tag_id encrypted_token pickup_binding_id db n p
          (some e) t done in
      let row = pickup_event rt user_id event_id tag_id pickup_binding_id parcel db.pickup_events in
      let same : e ≡ row = ground (arith, stored.answered) in
      rw
        (
          stored.events_kept,
          filter-append (λ (e : PickupEvent). str_eq e.event_id event_id) db.pickup_events
              (row ∷ []),
          new,
          str_eq_refl event_id,
        )
        (ap (λ (e : PickupEvent). e ∷ []) (sym same))

  -- the one binding with the code
  binding-alone :
      (b : ParcelTagBinding) × (filter
          (λ b. str_eq b.pickup_binding_id pickup_binding_id)
          t.saved.parcel_tag_bindings
        ≡ released b ∷ [])
  unfolding update_where
  binding-alone =
      let ((binding, tag, parcel, entitled, fresh, stored), new) =
        pickup_confirm-ok rt user_id event_id tag_id encrypted_token pickup_binding_id db n p
          (some e) t done in
      (
        binding,
        rw
            (
              stored.bindings_kept,
              filter-update_where
                  (λ (b : ParcelTagBinding). str_eq b.pickup_binding_id pickup_binding_id)
                  (λ b. b.id == binding.id) released db.parcel_tag_bindings (λ b. refl),
              entitled.bound,
              ==-refl binding.id,
            )
            refl,
      )

  -- A confirmation that is sent again with its event id, by whom and with whatever else, answers the
  -- first event as done before and commits nothing.
  pub pickup_confirm-repeated :
      (user_id' : ℕ) (tag_id' encrypted_token' pickup_binding_id' : String) (m : ℕ)
      → let (r, u) =
          pickup_confirm rt user_id' event_id tag_id' encrypted_token' pickup_binding_id'
            (opened t.saved m) in
        (r ≡ ok (find_first (λ p. p.id == e.parcel_id) t.saved.parcels, some e, true))
        × (u.saved ≡ t.saved)
  unfolding pickup_confirm confirm_event
  pickup_confirm-repeated user_id' tag_id' encrypted_token' pickup_binding_id' m =
      rw event-alone (refl, refl)

  -- A binding that was used for a confirmation serves no other: a request with the same binding and an
  -- event id that is not stored is refused with 400 and commits nothing.
  pub pickup_confirm-used :
      (user_id' : ℕ) (event_id' tag_id' encrypted_token' : String) (m : ℕ)
      → filter (λ e. str_eq e.event_id event_id') t.saved.pickup_events ≡ []
      → let (r, u) =
          pickup_confirm rt user_id' event_id' tag_id' encrypted_token' pickup_binding_id
            (opened t.saved m) in
        (r ≡ err (http 400 "Invalid binding")) × (u.saved ≡ t.saved)
  unfolding pickup_confirm confirm_event check_pickup
  pickup_confirm-used user_id' event_id' tag_id' encrypted_token' m new =
      let (b, alone) = binding-alone in rw new (rw alone (refl, refl))
