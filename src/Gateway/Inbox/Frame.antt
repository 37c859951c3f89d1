-- ===== src/Gateway/Inbox/Frame.antt =====
-- Opening the gate leaves the stored cards of the gateway as they are.
use smart_parcel_station.Prelude.{
  ℕ, String, Option, none, some, List, [], ◌∷◌, ◌≡◌, refl, find_first, str_eq, ◌&&◌, Bool-cases,
  inl, inr, is_present,
}
use smart_parcel_station.Json.{get}
use smart_parcel_station.Session.{Result, ok, err, Session, Action, continue}
use smart_parcel_station.Runtime.{Runtime}
use smart_parcel_station.Gateway.Enums.{CredentialType}
use smart_parcel_station.Gateway.Entities.{
  LocalDb, LocalParcel, LocalParcelTagBinding, LocalNfcCredential, GatewayTask, GateAuthSession,
}
use smart_parcel_station.Gateway.Outside.{Outside, BleReply, reply, failure}
use smart_parcel_station.Gateway.Tasks.{create_task, mark_running, mark_done, mark_failed}
use smart_parcel_station.Gateway.Sync.{enqueue_event_upload}
use smart_parcel_station.Gateway.Access.{
  opt_is_text, is_binding_active, record_local_pickup_event, enqueue_audit, deny,
  choose_session_color, normalize_credential_type,
}
use smart_parcel_station.Gateway.Access.Wake.{settle_wake, wake_bound, wake_parcel, wake_parcels}
use smart_parcel_station.Gateway.Access.Card.{
  grant_access, admit, admit_card, admit_type, handle_access_card,
}
use smart_parcel_station.Gateway.Access.ByUser.{
  effective_id, find_or_add_session, handle_gate_auth_by_user,
}

-- what is to hold of the stored cards that are uncommitted, and of those that are committed
pub record Policy : Type 1 where
  pub in_work : List LocalNfcCredential → Type 0
  pub in_saved : List LocalNfcCredential → Type 0
  pub carry : (rows : List LocalNfcCredential) → in_work rows → in_saved rows

module _ (P : Policy) where
  abbrev pub Holds : Session LocalDb → Type 0
  Holds s = P.in_work s.work.local_nfc_credentials × P.in_saved s.saved.local_nfc_credentials

  -- the same after an action
  abbrev pub After : {A : Type 0} → Result A × Session LocalDb → Type 0
  After (r, s) = Holds s

  -- a step that reads no state, before another
  pub After-lift :
      {A B : Type 0} (x : Result A) (f : A → Action LocalDb B) (s : Session LocalDb)
      → Holds s
      → ((a : A) → x ≡ ok a → After (f a s))
      → After (continue (x, s) f)
  After-lift (ok a) f s h k = k a refl
  After-lift (err e) f s h k = h

  -- a step after a step
  pub After-continue :
      {A B : Type 0} (r : Result A × Session LocalDb) (f : A → Action LocalDb B)
      → After r
      → ((a : A) (s : Session LocalDb) → Holds s → After (f a s))
      → After (continue r f)
  After-continue (ok a, s) f h k = k a s h
  After-continue (err x, s) f h k = h

module _ (P : Policy) (rt : Runtime) (out : Outside) where
  settle_wake-After :
      (tag_id : String) (task : GatewayTask) (answer : BleReply) (s : Session LocalDb)
      → Holds P s
      → After P (settle_wake rt out tag_id task answer s)
  unfolding settle_wake mark_done mark_failed
  settle_wake-After tag_id task (failure m) s h = (h.0, P.carry _ h.0)
  settle_wake-After tag_id task (reply answer) s h =
      elim (Bool-cases (opt_is_text (get "result" answer) "OK")) [
        | inl e ↦ rw e (h.0, P.carry _ h.0)
        | inr e ↦ rw e (h.0, P.carry _ h.0)
      ]

  wake_bound-After :
      (session_id color : String) (now : ℕ) (parcel : LocalParcel) (b : LocalParcelTagBinding)
      (s : Session LocalDb)
      → Holds P s
      → After P (wake_bound rt out session_id color now parcel b s)
  unfolding wake_bound create_task mark_running
  wake_bound-After session_id color now parcel b s h =
      After-continue P (settle_wake rt out _ _ _ _) _
        (settle_wake-After _ _ _ _ (h.0, P.carry _ h.0)) (λ a t e. e)

  wake_parcel-After :
      (session_id color : String) (now : ℕ) (parcel : LocalParcel)
      (b : Option LocalParcelTagBinding) (s : Session LocalDb)
      → Holds P s
      → After P (wake_parcel rt out session_id color now parcel b s)
  unfolding wake_parcel
  wake_parcel-After session_id color now parcel none s h = h
  wake_parcel-After session_id color now parcel (some b) s h =
      wake_bound-After session_id color now parcel b s h

  wake_parcels-After :
      (session_id color : String) (now : ℕ) (parcels : List LocalParcel) (s : Session LocalDb)
      → Holds P s
      → After P (wake_parcels rt out session_id color now parcels s)
  unfolding wake_parcels
  wake_parcels-After session_id color now [] s h = h
  wake_parcels-After session_id color now (p ∷ ps) s h =
      let bound =
        find_first
          (λ (b : LocalParcelTagBinding).
            str_eq b.server_parcel_id p.server_parcel_id && is_binding_active b.status)
          s.work.local_parcel_tag_bindings in
      After-continue P (wake_parcel rt out session_id color now p bound s) _
        (wake_parcel-After session_id color now p bound s h)
        (λ a t e.
          After-continue P (wake_parcels rt out session_id color now ps t) _
            (wake_parcels-After session_id color now ps t e) (λ b u f. f))

  module _ (station_id : String) where
    deny-After :
        (reader_id kind value reason shown : String) (user_id : Option String) (s : Session LocalDb)
        → Holds P s
        → After P (deny rt out station_id reader_id kind value reason shown user_id s)
    unfolding deny record_local_pickup_event enqueue_audit enqueue_event_upload
    deny-After reader_id kind value reason shown user_id s h = (h.0, P.carry _ h.0)

    module _ (reader_id kind value : String) where
      grant_access-After :
          (user_id : Option String) (parcels : List LocalParcel) (s : Session LocalDb)
          → Holds P s
          → After P (grant_access rt out station_id reader_id kind value user_id parcels s)
      unfolding grant_access record_local_pickup_event enqueue_audit enqueue_event_upload
          choose_session_color
      grant_access-After user_id parcels s h =
          After-continue P (wake_parcels rt out _ _ _ parcels _) _
            (wake_parcels-After _ _ _ parcels _ (h.0, P.carry _ h.0))
            (λ a t e. elim (Bool-cases a.2) [
              | inl b ↦ rw b (e.0, P.carry _ e.0)
              | inr b ↦ rw b (e.0, P.carry _ e.0)
            ])

      admit-After :
          (user_id : Option String) (parcels : List LocalParcel) (s : Session LocalDb)
          → Holds P s
          → After P (admit rt out station_id reader_id kind value user_id parcels s)
      unfolding admit
      admit-After user_id [] s h = deny-After reader_id kind value _ _ user_id s h
      admit-After user_id (p ∷ ps) s h = grant_access-After user_id (p ∷ ps) s h

      admit_card-After :
          (found : Option LocalNfcCredential) (resolved : Option String) (s : Session LocalDb)
          → Holds P s
          → After P (admit_card rt out station_id reader_id kind value found resolved s)
      unfolding admit_card
      admit_card-After none none s h = deny-After reader_id kind value _ _ none s h
      admit_card-After none (some resolved) s h = elim (Bool-cases (is_present (some resolved))) [
        | inl b ↦ rw b (admit-After (some resolved) _ s h)
        | inr b ↦ rw b h
      ]
      admit_card-After (some card) resolved s h = admit-After _ _ s h

      pub handle_access_card-After :
          (resolved : Option String) (s : Session LocalDb)
          → Holds P s
          → After P (handle_access_card rt out station_id reader_id kind value resolved s)
      unfolding handle_access_card admit_type
      handle_access_card-After resolved s h = by_type (normalize_credential_type kind)
        where
          by_type :
              (found : Option CredentialType)
              → After P (admit_type rt out station_id reader_id kind value found resolved s)
          by_type none = deny-After reader_id kind value _ _ none s h
          by_type (some t) = admit_card-After _ resolved s h

    module _ (gateway_code : String) (ttl : ℕ) where
      find_or_add_session-After :
          (id method reader_id : String) (found : Option GateAuthSession) (s : Session LocalDb)
          → Holds P s
          → After P
              (find_or_add_session rt out station_id gateway_code ttl id method reader_id found s)
      unfolding find_or_add_session
      find_or_add_session-After id method reader_id none s h = h
      find_or_add_session-After id method reader_id (some row) s h = h

      effective_id-After :
          (session_id request_id : Option String) (s : Session LocalDb)
          → Holds P s
          → After P (effective_id rt out station_id gateway_code ttl session_id request_id s)
      unfolding effective_id
      effective_id-After session_id request_id s h = elim (Bool-cases (is_present session_id)) [
        | inl given ↦ rw given h
        | inr missing ↦ elim (Bool-cases (is_present request_id)) [
          | inl asked ↦ rw (missing, asked) h
          | inr neither ↦ rw (missing, neither) h
        ]
      ]

      pub handle_gate_auth_by_user-After :
          (method reader_id user_id : String) (request_id session_id : Option String)
          (s : Session LocalDb)
          → Holds P s
          → After P (
              handle_gate_auth_by_user rt out station_id gateway_code ttl method reader_id user_id
                request_id session_id s)
      unfolding handle_gate_auth_by_user enqueue_audit enqueue_event_upload
      handle_gate_auth_by_user-After method reader_id user_id request_id session_id s h =
          After-continue P
            (handle_access_card rt out station_id reader_id method "" (some user_id) s) _
            (handle_access_card-After reader_id method "" (some user_id) s h)
            (λ a t e.
              After-continue P
                (effective_id rt out station_id gateway_code ttl session_id request_id t) _
                (effective_id-After session_id request_id t e)
                (λ id u f.
                  After-continue P
                    (find_or_add_session rt out station_id gateway_code ttl id method reader_id _ _)
                    _ (find_or_add_session-After id method reader_id _ _ f)
                    (λ key w g. (g.0, P.carry _ g.0))))
