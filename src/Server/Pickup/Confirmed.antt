-- ===== src/Server/Pickup/Confirmed.antt =====
-- What a confirmation of a pickup rests on, and what it writes.
use smart_parcel_station.Prelude.{
  ℕ, String, Bool, true, false, Option, none, some, List, [], ◌∷◌, ◌++◌, ◌≡◌, refl, subst, str_eq,
  str_eq_iff, ◌==◌, filter, find_first, update_where, arith,
}
use smart_parcel_station.Session.{Result, ok, err, Session, opened, continue, one_or_none}
use smart_parcel_station.Runtime.{Runtime}
use smart_parcel_station.Server.Enums.{ParcelTagBindingStatus}
use smart_parcel_station.Server.Models.{Db, Parcel, ParcelTagBinding, PickupEvent, Tag}
use smart_parcel_station.Server.Events.Queue.{queue_station_event_lem}
use smart_parcel_station.Server.Pickup.{
  is_picked_up, picked_up, released, Confirmation, check_pickup, pickup_event, store_pickup,
  confirm_parcel, confirm_event, pickup_confirm,
}

-- All that a confirmation demands.
pub record IsEntitled (user_id : ℕ) (tag_id encrypted_token pickup_binding_id : String) (db : Db)
    (binding : ParcelTagBinding) (tag : Tag) (parcel : Parcel) : Type 0 where
  pub bound :
      filter (λ b. str_eq b.pickup_binding_id pickup_binding_id) db.parcel_tag_bindings
      ≡ binding ∷ []
  pub active : binding.status ≡ ParcelTagBindingStatus.active
  pub tagged : filter (λ t. t.id == binding.tag_id) db.tags ≡ tag ∷ []
  pub same_tag : tag.tag_id ≡ tag_id
  pub same_token : tag.encrypted_token ≡ encrypted_token
  pub stored : find_first (λ p. p.id == binding.parcel_id) db.parcels ≡ some parcel
  pub own : parcel.receiver_user_id ≡ some user_id

module _ (user_id : ℕ) (tag_id encrypted_token pickup_binding_id : String) where
  pub check_pickup-ok :
      (db : Db) (n : ℕ) {binding : ParcelTagBinding} {parcel : Parcel} {s : Session Db}
      → check_pickup user_id tag_id encrypted_token pickup_binding_id (opened db n)
        ≡ (ok (binding, parcel), s)
      → ((tag : Tag) × IsEntitled user_id tag_id encrypted_token pickup_binding_id db binding tag
            parcel)
        × (s ≡ opened db n)
  unfolding check_pickup
  check_pickup-ok db n {binding} {parcel} {s} e =
      go (filter (λ t. t.id == binding.tag_id) db.tags) refl
    where
      go :
          (tags : List Tag)
          → filter (λ t. t.id == binding.tag_id) db.tags ≡ tags
          → ((tag : Tag) × IsEntitled user_id tag_id encrypted_token pickup_binding_id db binding
                tag parcel)
            × (s ≡ opened db n)
      go [] tagged = ground (arith, tagged, e)
      go (tag ∷ []) tagged = (
        (
          tag,
          record {
            bound = ground (arith, tagged, e);
            active = ground (arith, tagged, e);
            tagged = tagged;
            same_tag = (str_eq_iff tag.tag_id tag_id).0 (ground (arith, tagged, e));
            same_token =
                (str_eq_iff tag.encrypted_token encrypted_token).0 (ground (arith, tagged, e));
            stored = ground (arith, tagged, e);
            own = ground (arith, tagged, e);
          },
        ),
        ground (arith, tagged, e),
      )
      go (tag ∷ other ∷ rest) tagged = ground (arith, tagged, e)

  pub check_pickup-saved :
      (db : Db) (n : ℕ)
      → (check_pickup user_id tag_id encrypted_token pickup_binding_id (opened db n)).1.saved ≡ db
  unfolding check_pickup
  check_pickup-saved db n = ground arith

module _ (rt : Runtime) (user_id : ℕ)
    (event_id tag_id encrypted_token pickup_binding_id : String) where
  -- What a new confirmation commits.
  pub record IsStored (db : Db) (binding : ParcelTagBinding) (parcel : Parcel)
      (answer : Confirmation) (t : Session Db) : Type 0 where
    pub answered : answer ≡ (
      some (picked_up parcel),
      some (pickup_event rt user_id event_id tag_id pickup_binding_id parcel db.pickup_events),
      false,
    )
    pub parcels_kept : t.saved.parcels ≡ update_where (λ p. p.id == parcel.id) picked_up db.parcels
    pub bindings_kept :
        t.saved.parcel_tag_bindings
        ≡ update_where (λ b. b.id == binding.id) released db.parcel_tag_bindings
    pub events_kept :
        t.saved.pickup_events
        ≡ db.pickup_events
          ++ pickup_event rt user_id event_id tag_id pickup_binding_id parcel db.pickup_events ∷ []

  store_pickup-IsStored :
      (binding : ParcelTagBinding) (parcel : Parcel) (db : Db) (n : ℕ) (answer : Confirmation)
      (t : Session Db)
      → store_pickup rt user_id event_id tag_id pickup_binding_id binding parcel (opened db n)
        ≡ (ok answer, t)
      → IsStored db binding parcel answer t
  unfolding store_pickup
  store_pickup-IsStored binding parcel db n answer t = rw queue_station_event_lem (λ e. record {
    answered = ground (arith, e);
    parcels_kept = ground (arith, e);
    bindings_kept = ground (arith, e);
    events_kept = ground (arith, e);
  })

  abbrev pub IsConfirmed : Db → Confirmation → Session Db → Type 0
  IsConfirmed db answer t =
      (binding : ParcelTagBinding) × (tag : Tag) × (parcel : Parcel) × IsEntitled user_id tag_id
        encrypted_token pickup_binding_id db binding tag parcel
      × (is_picked_up parcel.status ≡ false)
      × IsStored db binding parcel answer t

  confirm_parcel-ok :
      (binding : ParcelTagBinding) (parcel : Parcel) (b : Bool) (db : Db) (n : ℕ)
      (p : Option Parcel) (e : Option PickupEvent) (t : Session Db)
      → confirm_parcel rt user_id event_id tag_id pickup_binding_id binding parcel b (opened db n)
        ≡ (ok (p, e, false), t)
      → (b ≡ false) × IsStored db binding parcel (p, e, false) t
  unfolding confirm_parcel
  confirm_parcel-ok binding parcel true db n p e t h = ground arith
  confirm_parcel-ok binding parcel false db n p e t h =
      (refl, store_pickup-IsStored binding parcel db n (p, e, false) t h)

  confirm_event-ok :
      (db : Db) (n : ℕ) (p : Option Parcel) (e : Option PickupEvent) (t : Session Db)
      → confirm_event rt user_id event_id tag_id encrypted_token pickup_binding_id none
          (opened db n)
        ≡ (ok (p, e, false), t)
      → IsConfirmed db (p, e, false) t
  unfolding confirm_event
  confirm_event-ok db n p e t =
      go (check_pickup user_id tag_id encrypted_token pickup_binding_id (opened db n)) refl
    where
      go :
          (r : Result (ParcelTagBinding × Parcel) × Session Db)
          → check_pickup user_id tag_id encrypted_token pickup_binding_id (opened db n) ≡ r
          → continue r (λ bp.
            confirm_parcel rt user_id event_id tag_id pickup_binding_id bp.0 bp.1
              (is_picked_up bp.1.status))
            ≡ (ok (p, e, false), t)
          → IsConfirmed db (p, e, false) t
      go (ok (binding, parcel), s) q h =
          let ((tag, entitled), same) =
            check_pickup-ok user_id tag_id encrypted_token pickup_binding_id db n q in
          let (fresh, stored) =
            confirm_parcel-ok binding parcel (is_picked_up parcel.status) db n p e t (
              subst
                (λ (s : Session Db).
                  confirm_parcel rt user_id event_id tag_id pickup_binding_id binding parcel
                    (is_picked_up parcel.status) s
                  ≡ (ok (p, e, false), t))
                same h) in
          (binding, tag, parcel, entitled, fresh, stored)
      go (err x, s) q h = ground (arith, h)

  -- A confirmation that is new had an active binding with this code, the tag of the binding with this
  -- name and token, and a parcel of this user that was not picked up, and no event with the given id
  -- was there. It commits the parcel as picked up, the binding as released and one event behind the
  -- others, and changes no other row of these tables.
  pub pickup_confirm-ok :
      (db : Db) (n : ℕ) (p : Option Parcel) (e : Option PickupEvent) (t : Session Db)
      → pickup_confirm rt user_id event_id tag_id encrypted_token pickup_binding_id (opened db n)
        ≡ (ok (p, e, false), t)
      → IsConfirmed db (p, e, false) t
        × (filter (λ e. str_eq e.event_id event_id) db.pickup_events ≡ [])
  unfolding pickup_confirm confirm_event
  pickup_confirm-ok db n p e t = go (filter (λ e. str_eq e.event_id event_id) db.pickup_events) refl
    where
      go :
          (events : List PickupEvent)
          → filter (λ e. str_eq e.event_id event_id) db.pickup_events ≡ events
          → continue
              (one_or_none events (opened db n))
              (confirm_event rt user_id event_id tag_id encrypted_token pickup_binding_id)
            ≡ (ok (p, e, false), t)
          → IsConfirmed db (p, e, false) t
            × (filter (λ e. str_eq e.event_id event_id) db.pickup_events ≡ [])
      go [] f h = (confirm_event-ok db n p e t h, f)
      go (x ∷ []) f h = ground (arith, h)
      go (x ∷ y ∷ rest) f h = ground (arith, h)
