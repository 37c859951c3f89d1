-- ===== src/Gateway/Access/Complete.antt =====
-- `handle_access_card` answers every card, and says of every parcel what became of its tag.
use smart_parcel_station.Prelude.{
  ℕ, suc, ◌&&◌, str_eq, String, Bool, Option, none, some, List, [], ◌∷◌, ◌≡◌, refl, ap, inl, inr,
  length, Bool-cases, find_first,
}
use smart_parcel_station.Json.{get}
use smart_parcel_station.Session.{Result, ok, Session, Action, continue}
use smart_parcel_station.Runtime.{Runtime}
use smart_parcel_station.Gateway.Enums.{CredentialType}
use smart_parcel_station.Gateway.Entities.{
  LocalDb, GatewayTask, LocalParcel, LocalNfcCredential, LocalParcelTagBinding,
}
use smart_parcel_station.Gateway.Outside.{Outside, BleReply, reply, failure}
use smart_parcel_station.Gateway.Tasks.{create_task, mark_running, mark_done, mark_failed}
use smart_parcel_station.Gateway.Sync.{enqueue_event_upload}
use smart_parcel_station.Gateway.Access.{
  Access, granted, denied, WakeItem, opt_is_text, is_binding_active, deny, choose_session_color,
  record_local_pickup_event, enqueue_audit,
}
use smart_parcel_station.Gateway.Access.Wake.{settle_wake, wake_bound, wake_parcel, wake_parcels}
use smart_parcel_station.Gateway.Access.Card.{
  grant_access, admit, admit_card, admit_type, handle_access_card,
}

-- an action that returns
abbrev pub IsDone : {D A : Type 0} → Result A × Session D → Type 0
IsDone {D} {A} r = (a : A) × (t : Session D) × (r ≡ (ok a, t))

IsDone-continue :
    {D A B : Type 0} (r : Result A × Session D) (k : A → Action D B)
    → IsDone r
    → ((a : A) (t : Session D) → IsDone (k a t))
    → IsDone (continue r k)
IsDone-continue r k (a, t, e) h = rw e (h a t)

-- a grant has an item for each parcel
abbrev pub IsComplete : Access → Type 0
IsComplete (granted g) = length g.items ≡ g.pickup_count
IsComplete (denied reason display) = Unit

module _ (rt : Runtime) (out : Outside) where
  settle_wake-IsDone :
      (tag_id : String) (task : GatewayTask) (r : BleReply) (s : Session LocalDb)
      → IsDone (settle_wake rt out tag_id task r s)
  unfolding settle_wake mark_done mark_failed
  settle_wake-IsDone tag_id task (failure message) s = (_, _, refl)
  settle_wake-IsDone tag_id task (reply answer) s =
      elim (Bool-cases (opt_is_text (get "result" answer) "OK")) [
        | inl good ↦ rw good (_, _, refl)
        | inr bad ↦ rw bad (_, _, refl)
      ]

  wake_parcel-IsDone :
      (session_id color : String) (now : ℕ) (parcel : LocalParcel)
      (b : Option LocalParcelTagBinding) (s : Session LocalDb)
      → IsDone (wake_parcel rt out session_id color now parcel b s)
  unfolding wake_parcel wake_bound create_task mark_running
  wake_parcel-IsDone session_id color now parcel none s = (_, _, refl)
  wake_parcel-IsDone session_id color now parcel (some binding) s =
      IsDone-continue _ _ (settle_wake-IsDone binding.tag_id _ _ _) (λ a t. (_, _, refl))

  -- the loop returns an item for each parcel
  wake_parcels-length :
      (session_id color : String) (now : ℕ) (parcels : List LocalParcel) (s : Session LocalDb)
      → (v : List WakeItem × List String × Bool) × (t : Session LocalDb) × (wake_parcels rt out
            session_id color now parcels s
          ≡ (ok v, t))
        × (length v.0 ≡ length parcels)
  unfolding wake_parcels
  wake_parcels-length session_id color now [] s = (_, _, refl, refl)
  wake_parcels-length session_id color now (parcel ∷ parcels) s =
      let (a, t, e) =
        wake_parcel-IsDone session_id color now parcel
          (find_first
            (λ b. str_eq b.server_parcel_id parcel.server_parcel_id && is_binding_active b.status)
            s.work.local_parcel_tag_bindings)
          s in
      let (v, u, e', n) = wake_parcels-length session_id color now parcels t in
      rw e (rw e' (_, _, refl, ap suc n))

  module _ (station_id reader_id credential_type credential_value : String) where
    abbrev pub IsAnswered : Result Access × Session LocalDb → Type 0
    IsAnswered r = (a : Access) × (t : Session LocalDb) × (r ≡ (ok a, t)) × IsComplete a

    deny-IsAnswered :
        (reason display : String) (user_id : Option String) (s : Session LocalDb)
        → IsAnswered (
            deny rt out station_id reader_id credential_type credential_value reason display user_id
              s)
    unfolding deny record_local_pickup_event enqueue_audit enqueue_event_upload
    deny-IsAnswered reason display user_id s = (_, _, refl, tt)

    after-IsAnswered :
        (parcels : List LocalParcel)
        (r : Result (List WakeItem × List String × Bool) × Session LocalDb)
        (k : List WakeItem × List String × Bool → Action LocalDb Access)
        → ((v : List WakeItem × List String × Bool) × (t : Session LocalDb) × (r ≡ (ok v, t))
            × (length v.0 ≡ length parcels))
        → ((v : List WakeItem × List String × Bool) (t : Session LocalDb)
            → length v.0 ≡ length parcels
            → IsAnswered (k v t))
        → IsAnswered (continue r k)
    after-IsAnswered parcels r k (v, t, e, n) h = rw e (h v t n)

    grant_access-IsAnswered :
        (user_id : Option String) (parcels : List LocalParcel) (s : Session LocalDb)
        → IsAnswered (
            grant_access rt out station_id reader_id credential_type credential_value user_id
              parcels s)
    unfolding grant_access choose_session_color record_local_pickup_event enqueue_audit
        enqueue_event_upload
    grant_access-IsAnswered user_id parcels s =
        after-IsAnswered parcels _ _ (wake_parcels-length _ _ _ parcels _) (λ v t n.
          elim (Bool-cases v.2) [
            | inl started ↦ rw started (_, _, refl, n)
            | inr idle ↦ rw idle (_, _, refl, n)
          ])

    admit-IsAnswered :
        (user_id : Option String) (parcels : List LocalParcel) (s : Session LocalDb)
        → IsAnswered
            (admit rt out station_id reader_id credential_type credential_value user_id parcels s)
    unfolding admit
    admit-IsAnswered user_id [] s = deny-IsAnswered _ _ _ s
    admit-IsAnswered user_id (p ∷ ps) s = grant_access-IsAnswered user_id (p ∷ ps) s

    card-IsAnswered :
        (found : Option LocalNfcCredential) (s : Session LocalDb)
        → IsAnswered
            (admit_card rt out station_id reader_id credential_type credential_value found none s)
    unfolding admit_card
    card-IsAnswered none s = deny-IsAnswered _ _ _ s
    card-IsAnswered (some card) s = admit-IsAnswered _ _ s

    kind-IsAnswered :
        (found : Option CredentialType) (s : Session LocalDb)
        → IsAnswered
            (admit_type rt out station_id reader_id credential_type credential_value found none s)
    unfolding admit_type
    kind-IsAnswered none s = deny-IsAnswered _ _ _ s
    kind-IsAnswered (some kind) s = card-IsAnswered _ s

    -- A card that is presented at a reader is always answered, whatever the tags answer and whether
    -- they can be reached: the handler returns a grant or a denial and raises nothing, and a grant has
    -- exactly one item for each parcel that it counts.
    pub handle_access_card-IsAnswered :
        (s : Session LocalDb)
        → IsAnswered
            (handle_access_card rt out station_id reader_id credential_type credential_value none s)
    unfolding handle_access_card
    handle_access_card-IsAnswered s = kind-IsAnswered _ s
