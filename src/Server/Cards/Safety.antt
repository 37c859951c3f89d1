-- ===== src/Server/Cards/Safety.antt =====
-- The guarantees of the card operations, over what they commit.
use mathlib.Core.Option
use smart_parcel_station.Prelude.{
  ℕ, String, Bool, true, false, Option, none, some, List, [], ◌∷◌, ◌++◌, ◌≡◌, refl, sym, ap, ◌∙◌,
  inl, inr, subst, ◌==◌, ==-refl, filter, any, find_first, update_where, arith, Bool-cases,
}
use smart_parcel_station.Session.{Result, ok, err, Session, opened, continue}
use smart_parcel_station.Runtime.{Runtime, AssignsFresh}
use smart_parcel_station.Server.Enums.{AccessCredentialType}
use smart_parcel_station.Server.Models.{Db, User, UserAccessCredential}
use smart_parcel_station.Server.Cards.{
  is_current, is_active, replaced_by, new_card, check_binding, store_binding, bind_user_card,
}
use smart_parcel_station.Server.Cards.Lifecycle.{
  Evolves, IsKeyed, Evolves-refl, Evolves-concat, update_where-Evolves, update_where-concat,
  find_first-filter, fresh-absent, IsKeyed-concat, IsKeyed-update_where, filter-retired,
  filter-concat,
}
use smart_parcel_station.Server.Cards.Binding.{
  IsBindable, check_binding-ok, check_binding-current, check_binding-saved, listed, stored, made,
  store_binding-stored,
}

-- A row that is found has another key than one that is absent.
other-id :
    (k : ℕ) (old : UserAccessCredential) (rows : List UserAccessCredential)
    → find_first (λ c. c.id == old.id) rows ≡ some old
    → any (λ c. c.id == k) rows ≡ false
    → (k == old.id) ≡ false
unfolding find_first any
other-id k old [] e a = cc
other-id k old (x ∷ rows) e a = ground (arith, other-id k old rows)

filter-sat :
    (p : UserAccessCredential → Bool) (old : UserAccessCredential)
    (rows : List UserAccessCredential)
    → filter p rows ≡ old ∷ []
    → p old ≡ true
unfolding filter
filter-sat p old [] e = cc
filter-sat p old (x ∷ rows) e = elim (Bool-cases (p x)) [
  | inl here ↦ let same : x ≡ old = ground arith in rw (← same) here
  | inr later ↦ filter-sat p old rows (ground arith)
]

current-active :
    (user_id station_id : ℕ) (c : UserAccessCredential)
    → is_current user_id station_id c ≡ true
    → is_active c.status ≡ true
current-active user_id station_id c h = ground arith

module _ (rt : Runtime) (fresh : AssignsFresh rt) (user_id station_id : ℕ)
    (credential_value : String) (reason : Option String) (admin : User) where
  retired-not-current :
      (k now : ℕ) (c : UserAccessCredential)
      → is_current user_id station_id (replaced_by k now c) ≡ false
  retired-not-current k now c = ground arith

  -- the facts about the table, for either kind of predecessor
  module _ (value : String) (rows : List UserAccessCredential) (keyed : IsKeyed rows)
      (now : ℕ) where
    abbrev card : UserAccessCredential
    card = new_card rt user_id station_id AccessCredentialType.card_uid value reason admin rows

    card-absent : any (λ c. c.id == card.id) rows ≡ false
    card-absent = fresh-absent rt rows fresh

    card-current : is_current user_id station_id card ≡ true
    card-current = ground (arith, ==-refl user_id, ==-refl station_id)

    stored-Evolves :
        (old : Option UserAccessCredential)
        → filter (is_current user_id station_id) rows ≡ listed old
        → Evolves rows (stored card now old rows)
    stored-Evolves none e = Evolves-concat rows rows card refl (Evolves-refl rows)
    stored-Evolves (some old) e =
        let k = card.id in
        let found = find_first-filter (is_current user_id station_id) rows keyed e in
        let differ = other-id k old rows found card-absent in
        let st = inr (record {
          was_active =
              current-active user_id station_id old
                (filter-sat (is_current user_id station_id) old rows e);
          not_active = refl;
          same_id = refl;
          same_user = refl;
          same_station = refl;
          same_type = refl;
          same_value = refl;
        }) in
        subst (λ (ys : List UserAccessCredential). Evolves rows ys)
          (sym (update_where-concat old.id (replaced_by k now) rows card differ))
          (Evolves-concat rows (update_where (λ c. c.id == old.id) (replaced_by k now) rows) card
            refl (update_where-Evolves old.id (replaced_by k now) rows keyed found st))

    stored-IsKeyed : (old : Option UserAccessCredential) → IsKeyed (stored card now old rows)
    stored-IsKeyed none = IsKeyed-concat rows card keyed card-absent
    stored-IsKeyed (some old) =
        IsKeyed-update_where (λ c. c.id == old.id) (replaced_by card.id now) (λ c. refl)
          (rows ++ card ∷ []) (IsKeyed-concat rows card keyed card-absent)

    stored-current :
        (old : Option UserAccessCredential)
        → filter (is_current user_id station_id) rows ≡ listed old
        → filter (is_current user_id station_id) (stored card now old rows) ≡ card ∷ []
    stored-current none e = filter-concat (is_current user_id station_id) rows card e card-current
    stored-current (some old) e =
        let k = card.id in
        let found = find_first-filter (is_current user_id station_id) rows keyed e in
        let differ = other-id k old rows found card-absent in
        let left =
          filter-retired (is_current user_id station_id) (replaced_by k now)
            (retired-not-current k now) rows old e in
        rw (update_where-concat old.id (replaced_by k now) rows card differ) (
          filter-concat (is_current user_id station_id)
            (update_where (λ c. c.id == old.id) (replaced_by k now) rows) card left card-current)

  -- What an action on cards that began at `db` has left: the table has evolved, its keys are unique,
  -- and where the action returned a card, that is the one active card of the user at the station.
  abbrev pub IsSound :
      Db → Result (UserAccessCredential × Option UserAccessCredential) × Session Db → Type 0
  IsSound db (r, t) =
      Evolves db.user_access_credentials t.saved.user_access_credentials
      × IsKeyed t.saved.user_access_credentials
      × ((c : UserAccessCredential) (o : Option UserAccessCredential)
          → r ≡ ok (c, o)
          → filter (is_current user_id station_id) t.saved.user_access_credentials ≡ c ∷ [])

  store_binding-IsSound :
      (credential_type : AccessCredentialType) (value : String) (old : Option UserAccessCredential)
      (db : Db) (n : ℕ)
      → IsKeyed db.user_access_credentials
      → IsBindable rt user_id station_id credential_type credential_value admin
          (opened db n)
          value
          old
      → filter (is_current user_id station_id) db.user_access_credentials ≡ listed old
      → IsSound db
          (store_binding rt user_id station_id credential_type value old reason admin (opened db n))
  store_binding-IsSound credential_type value old db n keyed b current =
      subst
        (λ (ty : AccessCredentialType).
          IsSound db (store_binding rt user_id station_id ty value old reason admin (opened db n)))
        (sym b.kind)
        (
          subst (λ (rows : List UserAccessCredential). Evolves db.user_access_credentials rows)
              (sym table) (stored-Evolves value db.user_access_credentials keyed now old current),
          subst IsKeyed (sym table) (stored-IsKeyed value db.user_access_credentials keyed now old),
          λ c o e.
              let same : made rt user_id station_id AccessCredentialType.card_uid value reason admin
                    (opened db n) b.unissued
                  ≡ c =
                cc (result, e) in
              rw table (
                subst
                  (λ (x : UserAccessCredential).
                    filter (is_current user_id station_id) (
                      stored (card value db.user_access_credentials keyed now) now old
                        db.user_access_credentials)
                    ≡ x ∷ [])
                  same (stored-current value db.user_access_credentials keyed now old current)),
        )
    where
      now : ℕ
      now = rt.clock n

      facts :
          let (r, t) =
            store_binding rt user_id station_id AccessCredentialType.card_uid value old reason admin
              (opened db n) in
          (r
            ≡ ok (
              card value db.user_access_credentials keyed now,
              Option.map (replaced_by (card value db.user_access_credentials keyed now).id now) old,
            ))
          × (t.saved.user_access_credentials
              ≡ stored
                  (card value db.user_access_credentials keyed now)
                  now
                  old
                  db.user_access_credentials)
          × (t.work ≡ t.saved)
      facts =
          store_binding-stored rt user_id station_id AccessCredentialType.card_uid value reason
            admin (opened db n) b.unissued old

      result :
          (store_binding rt user_id station_id AccessCredentialType.card_uid value old reason admin
            (opened db n)).0
          ≡ ok (
            card value db.user_access_credentials keyed now,
            Option.map (replaced_by (card value db.user_access_credentials keyed now).id now) old,
          )
      result = facts.0

      table :
          (store_binding rt user_id station_id AccessCredentialType.card_uid value old reason admin
            (opened db n)).1.saved.user_access_credentials
          ≡ stored
              (card value db.user_access_credentials keyed now)
              now
              old
              db.user_access_credentials
      table = facts.1

  bind_user_card-IsSound :
      (credential_type : AccessCredentialType) (db : Db) (n : ℕ)
      → IsKeyed db.user_access_credentials
      → IsSound db (
          bind_user_card rt user_id station_id credential_type credential_value reason admin
            (opened db n))
  unfolding bind_user_card
  bind_user_card-IsSound credential_type db n keyed =
      go (check_binding rt user_id station_id credential_type credential_value admin (opened db n))
        refl
    where
      go :
          (r : Result (String × Option UserAccessCredential) × Session Db)
          → check_binding rt user_id station_id credential_type credential_value admin (opened db n)
            ≡ r
          → IsSound db (
              continue r
                (λ vo. store_binding rt user_id station_id credential_type vo.0 vo.1 reason admin))
      go (ok (value, old), s) e =
          let b =
            check_binding-ok rt user_id station_id credential_type credential_value admin
              (opened db n) e in
          let (current, same) =
            check_binding-current rt user_id station_id credential_type credential_value admin
              (opened db n) e in
          subst
            (λ (s : Session Db).
              IsSound db
                (store_binding rt user_id station_id credential_type value old reason admin s))
            (sym same) (store_binding-IsSound credential_type value old db n keyed b current)
      go (err x, s) e =
          let saved : s.saved ≡ db =
            ap (λ (r : Result (String × Option UserAccessCredential) × Session Db). r.1.saved)
              (sym e)
            ∙ check_binding-saved rt user_id station_id credential_type credential_value admin
                (opened db n) in
          subst (λ (d : Db). IsSound db (err x, record s { saved = d })) (sym saved)
            (Evolves-refl db.user_access_credentials, keyed, λ c o h. cc)

  -- A request to bind a card keeps every card of the table as it is or retires an active one,
  -- adds only active cards, and keeps the primary keys distinct, whether it succeeds or fails:
  -- no card that is lost, replaced, disabled or expired becomes active. The primary keys of the
  -- table must be distinct, and new ones fresh.
  pub bind_user_card-Evolves :
      (credential_type : AccessCredentialType) (db : Db) (n : ℕ)
      → IsKeyed db.user_access_credentials
      → let t =
          (bind_user_card rt user_id station_id credential_type credential_value reason admin
            (opened db n)).1 in
        Evolves db.user_access_credentials t.saved.user_access_credentials
        × IsKeyed t.saved.user_access_credentials
  bind_user_card-Evolves credential_type db n keyed =
      let (evolves, unique, _) = bind_user_card-IsSound credential_type db n keyed in
      (evolves, unique)

  -- After a binding that succeeds, the card that it returns is the one active card of that user
  -- at that station in the committed table. The primary keys of the table must be distinct, and
  -- new ones fresh.
  pub bind_user_card-current :
      (credential_type : AccessCredentialType) (db : Db) (n : ℕ) (c : UserAccessCredential)
      (o : Option UserAccessCredential)
      → IsKeyed db.user_access_credentials
      → (bind_user_card rt user_id station_id credential_type credential_value reason admin
          (opened db n)).0
        ≡ ok (c, o)
      → filter
          (is_current user_id station_id)
          (bind_user_card rt user_id station_id credential_type credential_value reason admin
            (opened db n)).1.saved.user_access_credentials
        ≡ c ∷ []
  bind_user_card-current credential_type db n c o keyed e =
      (bind_user_card-IsSound credential_type db n keyed).2 c o e
