-- ===== src/Server/Sync/Push.antt =====
-- A push that is sent again.
use smart_parcel_station.Prelude.{
  ℕ, ◌+◌, String, Option, none, some, List, [], ◌∷◌, ◌++◌, ◌≡◌, refl, sym, ap, ◌∙◌, subst, inl, inr,
  length, All, str_eq, str_eq_refl, str_eq_iff, Bool-cases, filter, filter-append, arith,
}
use smart_parcel_station.Json.{Fields, get}
use smart_parcel_station.Server.Payload.{optional_int}
use smart_parcel_station.Session.{
  Result, ok, err, Session, Action, opened, continue, one_or_none, for_each,
}
use smart_parcel_station.Session.Laws.{
  continue-ok, Result-cases, one_or_none-ok_some, one_or_none-ok_none,
}
use smart_parcel_station.Runtime.{Runtime}
use smart_parcel_station.Server.Models.{Db, GatewaySyncEvent, User}
use smart_parcel_station.Server.Sync.Apply.{
  read_inbound, station_of, merge_inbound, add_inbound, check_parcel, notify_receiver, notify,
  find_picked, pickup_event_id, store_gateway_pickup, pick_up, apply_gateway_inbound,
  apply_gateway_tag_exception_event, apply_gateway_pickup_event, apply_gateway_business_event,
}
use smart_parcel_station.Server.Sync.{
  SyncPushItem, received, add_received, push_item, push_items, gateway_push_sync,
}

-- the rows with an event id
abbrev pub with_id : String → List GatewaySyncEvent → List GatewaySyncEvent
with_id id rows = filter (λ e. str_eq e.event_id id) rows

abbrev pub IsThere : List GatewaySyncEvent → String → Type 0
IsThere rows id = (e : GatewaySyncEvent) × (with_id id rows ≡ e ∷ [])

-- An action that leaves the events and what is committed alone.
abbrev Leaves : {A : Type 0} → Action Db A → Type 0
Leaves m =
    (s : Session Db)
    → ((m s).1.work.gateway_sync_events ≡ s.work.gateway_sync_events) × ((m s).1.saved ≡ s.saved)

module _ (rt : Runtime) (gateway_id station_id : ℕ) where
  inbound-Leaves : (payload : Fields) → Leaves (apply_gateway_inbound rt station_id payload)
  unfolding apply_gateway_inbound read_inbound station_of merge_inbound add_inbound check_parcel
      notify_receiver notify
  inbound-Leaves payload s = ground arith

  pickup-Leaves :
      (payload : Fields) → Leaves (apply_gateway_pickup_event rt gateway_id station_id payload)
  unfolding apply_gateway_pickup_event find_picked pick_up store_gateway_pickup pickup_event_id
  pickup-Leaves payload s = ground arith

  notify_all-Leaves :
      (title content : String) (users : List User)
      → Leaves (for_each users (λ user. notify rt user.id none title content))
  unfolding for_each notify
  notify_all-Leaves title content [] s = (refl, refl)
  notify_all-Leaves title content (u ∷ users) s =
      let (a, b) = notify_all-Leaves title content users (notify rt u.id none title content s).1 in
      (a, b)

  exception-Leaves :
      (payload : Fields) → Leaves (apply_gateway_tag_exception_event rt station_id payload)
  unfolding apply_gateway_tag_exception_event
  exception-Leaves payload s = elim (Result-cases (optional_int (get "station_id" payload))) [
    | inl (z, e) ↦ rw e (notify_all-Leaves _ _ _ s)
    | inr (x, e) ↦ rw e (refl, refl)
  ]

  apply-Leaves :
      (event_type : String) (payload : Fields)
      → Leaves (apply_gateway_business_event rt gateway_id station_id event_type payload)
  unfolding apply_gateway_business_event
  apply-Leaves event_type payload s =
      ground (arith, inbound-Leaves payload s, pickup-Leaves payload s, exception-Leaves payload s)

  -- the rows that a push of one item leaves
  abbrev after_item :
      SyncPushItem → Option GatewaySyncEvent → List GatewaySyncEvent → List GatewaySyncEvent
  after_item item (some row) rows = rows
  after_item item none rows = rows ++ received rt gateway_id station_id item rows ∷ []

  push_item-ok :
      (item : SyncPushItem) (row : Option GatewaySyncEvent) (s : Session Db) {r : ℕ × ℕ}
      {t : Session Db}
      → push_item rt gateway_id station_id item row s ≡ (ok r, t)
      → (r.0 + r.1 ≡ 1)
        × (t.work.gateway_sync_events ≡ after_item item row s.work.gateway_sync_events)
        × (t.saved ≡ s.saved)
  unfolding push_item
  push_item-ok item (some row) s e = ground (arith, e)
  push_item-ok item none s e =
      let u = record s { work = add_received rt gateway_id station_id item s.work } in
      ground (arith, e, apply-Leaves item.event_type item.payload_json u)

  -- every id that is there stays there
  abbrev Grows : List GatewaySyncEvent → List GatewaySyncEvent → Type 0
  Grows rows rows' = (id : String) → IsThere rows id → IsThere rows' id

  new_item-Grows :
      (item : SyncPushItem) (rows : List GatewaySyncEvent)
      → with_id item.event_id rows ≡ []
      → Grows rows (rows ++ received rt gateway_id station_id item rows ∷ [])
        × IsThere (rows ++ received rt gateway_id station_id item rows ∷ []) item.event_id
  unfolding filter
  new_item-Grows item rows none_yet = (grows, (row, here))
    where
      row : GatewaySyncEvent
      row = received rt gateway_id station_id item rows

      here : with_id item.event_id (rows ++ row ∷ []) ≡ row ∷ []
      here =
          rw
            (
              filter-append (λ (e : GatewaySyncEvent). str_eq e.event_id item.event_id) rows
                  (row ∷ []),
              none_yet,
              str_eq_refl item.event_id,
            )
            refl

      grows : Grows rows (rows ++ row ∷ [])
      grows id (e, alone) = elim (Bool-cases (str_eq item.event_id id)) [
        | inl clash ↦
            let same : item.event_id ≡ id = (str_eq_iff item.event_id id).0 clash in
            let nothing : with_id id rows ≡ [] =
              subst (λ (i : String). with_id i rows ≡ []) same none_yet in
            cc
        | inr other ↦ (
          e,
          rw
              (
                filter-append (λ (e : GatewaySyncEvent). str_eq e.event_id id) rows (row ∷ []),
                alone,
                other,
              )
              refl,
        )
      ]

  -- What a push that succeeds leaves.
  record IsPushed (items : List SyncPushItem) (s : Session Db) (r : ℕ × ℕ) (t : Session Db)
      : Type 0 where
    counted : r.0 + r.1 ≡ length items
    grown : Grows s.work.gateway_sync_events t.work.gateway_sync_events
    stored : All (λ (item : SyncPushItem). IsThere t.work.gateway_sync_events item.event_id) items
    same : t.saved ≡ s.saved

  abbrev IsKept : Session Db → SyncPushItem → Option GatewaySyncEvent → Session Db → Type 0
  IsKept s item row s0 =
      Grows s.work.gateway_sync_events (after_item item row s0.work.gateway_sync_events)
      × IsThere (after_item item row s0.work.gateway_sync_events) item.event_id

  -- the row that is looked up
  found_item :
      (item : SyncPushItem) (row : Option GatewaySyncEvent) (s s0 : Session Db)
      → one_or_none (with_id item.event_id s.work.gateway_sync_events) s ≡ (ok row, s0)
      → (s0 ≡ s)
        × Grows s.work.gateway_sync_events (after_item item row s0.work.gateway_sync_events)
        × IsThere (after_item item row s0.work.gateway_sync_events) item.event_id
  found_item item none s s0 e =
      let (nothing, same) =
        one_or_none-ok_none (with_id item.event_id s.work.gateway_sync_events) s e in
      let (grows, there) =
        subst (IsKept s item none) (sym same)
          (new_item-Grows item s.work.gateway_sync_events nothing) in
      (same, grows, there)
  found_item item (some row) s s0 e =
      let (alone, same) =
        one_or_none-ok_some (with_id item.event_id s.work.gateway_sync_events) s e in
      let (grows, there) = subst (IsKept s item (some row)) (sym same) (λ id h. h, (row, alone)) in
      (same, grows, there)

  push_items-IsPushed :
      (items : List SyncPushItem) (s : Session Db) {r : ℕ × ℕ} {t : Session Db}
      → push_items rt gateway_id station_id items s ≡ (ok r, t)
      → IsPushed items s r t
  unfolding push_items
  push_items-IsPushed [] s {r} {t} e =
      let sum : r ≡ (0, 0) = ground (arith, e) in
      let same : t ≡ s = ground (arith, e) in
      record {
        counted = ground (arith, sum);
        grown =
            subst (λ (t : Session Db). Grows s.work.gateway_sync_events t.work.gateway_sync_events)
              (sym same) (λ id h. h);
        stored = tt;
        same = ap (λ (t : Session Db). t.saved) same;
      }
  push_items-IsPushed (item ∷ items) s {r} {t} e =
      let (row, s0, found, e0) =
        continue-ok (one_or_none (with_id item.event_id s.work.gateway_sync_events) s) _ e in
      let (c, s1, pushed, e1) = continue-ok (push_item rt gateway_id station_id item row s0) _ e0 in
      let (d, s2, rest, e2) = continue-ok (push_items rt gateway_id station_id items s1) _ e1 in
      let later = push_items-IsPushed items s1 rest in
      let last : s2 ≡ t = ground (arith, e2) in
      let (one, table, kept) = push_item-ok item row s0 pushed in
      let (start, grows, there) = found_item item row s s0 found in
      let step =
        subst
          (λ (rows : List GatewaySyncEvent).
            Grows s.work.gateway_sync_events rows × IsThere rows item.event_id)
          (sym table) (grows, there) in
      subst (IsPushed (item ∷ items) s r) last (record {
        counted = ground (arith, e2, one, later.counted);
        grown = λ id h. later.grown id (step.0 id h);
        stored = (later.grown item.event_id step.1, later.stored);
        same = later.same ∙ kept ∙ ap (λ (s : Session Db). s.saved) start;
      })

  -- where every id is there, all items are duplicates
  push_items-again :
      (items : List SyncPushItem) (s : Session Db)
      → All (λ (item : SyncPushItem). IsThere s.work.gateway_sync_events item.event_id) items
      → push_items rt gateway_id station_id items s ≡ (ok (0, length items), s)
  unfolding push_items push_item
  push_items-again [] s h = refl
  push_items-again (item ∷ items) s ((row, alone), rest) =
      let later = push_items-again items s rest in rw (alone, later) (ground arith)

  -- A push that succeeds counts each item once, as accepted or as duplicate. The same push of
  -- the same gateway sent again accepts nothing, counts every item as a duplicate and leaves what is
  -- committed as it is: no event is applied twice.
  pub gateway_push_sync-again :
      (items : List SyncPushItem) (db : Db) (n m : ℕ) {r : ℕ × ℕ} {t : Session Db}
      → gateway_push_sync rt gateway_id station_id items (opened db n) ≡ (ok r, t)
      → let (r', u) = gateway_push_sync rt gateway_id station_id items (opened t.saved m) in
        (r.0 + r.1 ≡ length items) × (r' ≡ ok (0, length items)) × (u.saved ≡ t.saved)
  unfolding gateway_push_sync
  gateway_push_sync-again items db n m {r} {t} done =
      go (push_items rt gateway_id station_id items (opened db n)) refl done
    where
      go :
          (q : Result (ℕ × ℕ) × Session Db)
          → push_items rt gateway_id station_id items (opened db n) ≡ q
          → continue q (λ counts s. (ok counts, record s { saved = s.work })) ≡ (ok r, t)
          → let (r', u) = gateway_push_sync rt gateway_id station_id items (opened t.saved m) in
            (r.0 + r.1 ≡ length items) × (r' ≡ ok (0, length items)) × (u.saved ≡ t.saved)
      go (ok c, s) e h =
          let p = push_items-IsPushed items (opened db n) e in
          let counts : c ≡ r = ground (arith, h) in
          let table : s.work ≡ t.saved = ground (arith, h) in
          let again = push_items-again items (opened t.saved m) (
            subst
              (λ (d : Db).
                All (λ (item : SyncPushItem). IsThere d.gateway_sync_events item.event_id) items)
              table p.stored) in
          (ap (λ (c : ℕ × ℕ). c.0 + c.1) (sym counts) ∙ p.counted, rw again refl, rw again refl)
      go (err x, s) e h = ground (arith, h)
