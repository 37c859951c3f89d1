-- ===== src/Server/Cards/Binding.antt =====
-- What a binding of a new card checks and leaves.
use smart_parcel_station.Prelude.{
  ℕ, String, Bool, false, Option, none, some, List, [], ◌∷◌, ◌++◌, ◌≡◌, refl, ◌⊎◌, inl, inr, str_eq,
  ◌==◌, filter, any, arith, find_first, update_where, Option-cases,
}
use mathlib.Core.Option
use smart_parcel_station.Server.Events.Queue.{queue_station_event_lem}
use smart_parcel_station.Text.{upper, strip}
use smart_parcel_station.Session.{ok, Session}
use smart_parcel_station.Runtime.{Runtime}
use smart_parcel_station.Server.Enums.{UserRole, AccessCredentialType}
use smart_parcel_station.Server.Models.{Db, User, UserAccessCredential}
use smart_parcel_station.Server.Cards.{
  is_current, check_binding, store_binding, add_card, retire_card, new_card, replaced_by,
}

abbrev pub listed : Option UserAccessCredential → List UserAccessCredential
listed none = []
listed (some c) = c ∷ []

module _ (rt : Runtime) (user_id station_id : ℕ) (credential_type : AccessCredentialType)
    (credential_value : String) (admin : User) (s : Session Db) where
  -- What the tests establish; they write nothing.
  pub record IsBindable (value : String) (old : Option UserAccessCredential) : Type 0 where
    pub kind : credential_type ≡ AccessCredentialType.card_uid
    pub owner :
        (u : User) × (find_first (λ u. u.id == user_id) s.work.users ≡ some u)
        × (u.station_id ≡ some station_id)
    pub allowed : (admin.role ≡ UserRole.server_admin) ⊎ (admin.station_id ≡ some station_id)
    pub normalized : value ≡ upper (strip credential_value)
    pub unissued : filter (λ c. str_eq c.credential_value value) s.work.user_access_credentials ≡ []

  pub check_binding-ok :
      {value : String} {old : Option UserAccessCredential} {t : Session Db}
      → check_binding rt user_id station_id credential_type credential_value admin s
        ≡ (ok (value, old), t)
      → IsBindable value old
  unfolding check_binding
  check_binding-ok {value} {old} {t} e = record {
    kind = ground arith;
    owner = elim (Option-cases (find_first (λ u. u.id == user_id) s.work.users)) [
      | inl missing ↦ absurd (ground arith)
      | inr (u, found) ↦ (u, found, ground arith)
    ];
    allowed = ground arith;
    normalized = ground arith;
    unissued = ground arith;
  }

  -- the card that is replaced is the only active one of the user at the station
  pub check_binding-current :
      {value : String} {old : Option UserAccessCredential} {t : Session Db}
      → check_binding rt user_id station_id credential_type credential_value admin s
        ≡ (ok (value, old), t)
      → (filter (is_current user_id station_id) s.work.user_access_credentials ≡ listed old)
        × (t ≡ s)
  unfolding check_binding
  check_binding-current {value} {old} {t} e = (ground arith, ground arith)

  pub check_binding-saved :
      (check_binding rt user_id station_id credential_type credential_value admin s).1.saved
      ≡ s.saved
  unfolding check_binding
  check_binding-saved = ground arith

-- No row of a selection that is empty passes its test.
any-filter {ℓ} : {A : Type ℓ} (p : A → Bool) (xs : List A) → filter p xs ≡ [] → any p xs ≡ false
unfolding any filter
any-filter p [] e = refl
any-filter p (x ∷ xs) e = ground (arith, any-filter p xs)

-- the table after the writes of a binding
abbrev pub stored :
    UserAccessCredential
    → ℕ
    → Option UserAccessCredential
    → List UserAccessCredential
    → List UserAccessCredential
stored card now none rows = rows ++ card ∷ []
stored card now (some old) rows =
    update_where (λ c. c.id == old.id) (replaced_by card.id now) (rows ++ card ∷ [])

module _ (rt : Runtime) (user_id station_id : ℕ) (credential_type : AccessCredentialType)
    (value : String) (reason : Option String) (admin : User) (s : Session Db)
    (unissued : filter (λ c. str_eq c.credential_value value) s.work.user_access_credentials
      ≡ []) where
  abbrev pub made : UserAccessCredential
  made =
      new_card rt user_id station_id credential_type value reason admin
        s.work.user_access_credentials

  -- Storing a card of an unissued value succeeds and commits, with or without a card to replace.
  pub store_binding-stored :
      (old : Option UserAccessCredential)
      → let (r, t) = store_binding rt user_id station_id credential_type value old reason admin s in
        (r ≡ ok (made, Option.map (replaced_by made.id (rt.clock s.draws)) old))
        × (t.saved.user_access_credentials
            ≡ stored made (rt.clock s.draws) old s.work.user_access_credentials)
        × (t.work ≡ t.saved)
  unfolding store_binding add_card retire_card
  store_binding-stored none =
      rw (any-filter _ _ unissued, queue_station_event_lem) (refl, refl, refl)
  store_binding-stored (some old) =
      rw (any-filter _ _ unissued, queue_station_event_lem, queue_station_event_lem)
        (refl, refl, refl)
