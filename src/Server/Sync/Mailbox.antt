-- ===== src/Server/Sync/Mailbox.antt =====
-- The queue of events as a mailbox of each gateway: what is posted is delivered once and in order.
use mathlib.Core.List.{append-nil, append_assoc}
use smart_parcel_station.Prelude.{
  ℕ, ◌+◌, String, false, ◌&&◌, List, [], ◌∷◌, ◌++◌, map, ◌≡◌, refl, sym, ap, ◌∙◌, subst, inl, inr,
  ◌==◌, ==→≡, Bool-cases, filter, filter-append, update_where, if◌then◌else◌, arith,
}
use smart_parcel_station.Json.{Fields}
use smart_parcel_station.Session.{Result, ok, err, Session, opened, closed, commit, ◌>>◌}
use smart_parcel_station.Runtime.{Runtime}
use smart_parcel_station.Server.Enums.{GatewaySyncEventType}
use smart_parcel_station.Server.Enums.Values.{gateway_sync_event_type_value}
use smart_parcel_station.Server.Models.{Db, Gateway, GatewaySyncEvent}
use smart_parcel_station.Server.Events.{station_event, queue_station_event}
use smart_parcel_station.Server.Events.Queue.{queued, queue_station_event_lem}
use smart_parcel_station.Server.Sync.{is_due, sent, gateway_pull_sync}

-- what a gateway reads of an event
abbrev pub body : GatewaySyncEvent → String × Fields
body e = (e.event_type, e.payload_json)

-- the events that wait for a gateway
abbrev pub mailbox : ℕ → Db → List (String × Fields)
mailbox gateway_id db = map body (filter (is_due gateway_id) db.gateway_sync_events)

-- the steps of the server that concern the mailboxes
pub data Step : Type 0 where
  post : ℕ → GatewaySyncEventType → Fields → Step
  pull : ℕ → Step

-- the bodies that a pull returns
abbrev bodies : Result (List GatewaySyncEvent) → List (String × Fields)
bodies (ok events) = map body events
bodies (err e) = []

module _ (g : ℕ) where
  pull-other :
      (h : ℕ) (rows : List GatewaySyncEvent)
      → (h == g) ≡ false
      → filter (is_due g) (update_where (is_due h) sent rows) ≡ filter (is_due g) rows
  unfolding filter update_where
  pull-other h [] e = refl
  pull-other h (r ∷ rows) e = ground (arith, pull-other h rows)

  pull-empty :
      (rows : List GatewaySyncEvent) → filter (is_due g) (update_where (is_due g) sent rows) ≡ []
  unfolding filter update_where
  pull-empty [] = refl
  pull-empty (r ∷ rows) = ground (arith, pull-empty rows)

  body-sent : (rows : List GatewaySyncEvent) → map body (map sent rows) ≡ map body rows
  body-sent [] = refl
  body-sent (r ∷ rows) = ap (λ l. body r ∷ l) (body-sent rows)

  map-append : (xs ys : List GatewaySyncEvent) → map body (xs ++ ys) ≡ map body xs ++ map body ys
  map-append [] ys = refl
  map-append (x ∷ xs) ys = ap (λ l. body x ∷ l) (map-append xs ys)

  -- what a post brings to the mailbox of `g`: one event for each gateway with this key at the station
  pub posted : List Gateway → Step → List (String × Fields)
  posted gateways (pull h) = []
  posted [] (post station kind payload) = []
  posted (w ∷ gateways) (post station kind payload) =
      let rest = posted gateways (post station kind payload) in
      if (w.station_id == station) && (w.id == g)
      then (gateway_sync_event_type_value kind, payload) ∷ rest
      else rest

  module _ (rt : Runtime) where
    pub step : Step → Session Db → Session Db
    step (post station kind payload) s =
        closed ((queue_station_event rt station kind payload >> commit) s)
    step (pull h) s = closed (gateway_pull_sync h s)

    -- what a step returns to `g`
    pub delivered : Step → Session Db → List (String × Fields)
    delivered (post station kind payload) s = []
    delivered (pull h) s = if h == g then bodies (gateway_pull_sync h s).0 else []

    -- a sequence of steps
    unfoldable pub run : List Step → Session Db → Session Db
    run [] s = s
    run (c ∷ cs) s = run cs (step c s)

    unfoldable pub all_delivered : List Step → Session Db → List (String × Fields)
    all_delivered [] s = []
    all_delivered (c ∷ cs) s = delivered c s ++ all_delivered cs (step c s)

    unfoldable pub all_posted : List Gateway → List Step → List (String × Fields)
    all_posted gateways [] = []
    all_posted gateways (c ∷ cs) = posted gateways c ++ all_posted gateways cs

    -- one event more
    mailbox-last :
        (rows : List GatewaySyncEvent) (row : GatewaySyncEvent)
        → map body (filter (is_due g) (rows ++ row ∷ []))
          ≡ map body (filter (is_due g) rows) ++ (if is_due g row then body row ∷ [] else [])
    unfolding filter
    mailbox-last rows row =
        ap (map body) (filter-append (is_due g) rows (row ∷ []))
        ∙ map-append (filter (is_due g) rows) (filter (is_due g) (row ∷ []))
        ∙ ap (λ l. map body (filter (is_due g) rows) ++ l) (ground arith)

    queued-mailbox :
        (station : ℕ) (kind : GatewaySyncEventType) (payload : Fields) (gs : List Gateway) (n : ℕ)
        (rows : List GatewaySyncEvent)
        → map body (
            filter
              (is_due g)
              (queued rt station kind payload (filter (λ w. w.station_id == station) gs) n rows))
          ≡ map body (filter (is_due g) rows) ++ posted gs (post station kind payload)
    unfolding filter queued posted
    queued-mailbox station kind payload [] n rows = sym (append-nil _)
    queued-mailbox station kind payload (w ∷ gs) n rows =
        elim (Bool-cases (w.station_id == station)) [
          | inr other ↦ rw other (queued-mailbox station kind payload gs n rows)
          | inl here ↦
              let row = station_event rt station kind payload w (rt.uuid_hex n) rows in
              let rest = queued-mailbox station kind payload gs (n + 1) (rows ++ row ∷ []) in
              let end = mailbox-last rows row in
              rw here (elim (Bool-cases (w.id == g)) [
                | inl own ↦ rw own (
                    rest
                    ∙ rw (end, own)
                        (append_assoc (map body (filter (is_due g) rows)) (body row ∷ [])
                          (posted gs (post station kind payload))))
                | inr foreign ↦ rw foreign (
                    rest
                    ∙ rw (end, foreign)
                        (ap (λ l. l ++ posted gs (post station kind payload))
                          (append-nil (map body (filter (is_due g) rows)))))
              ])
        ]

    -- one step: what was there and what is posted is what is delivered and what is left
    step-mailbox :
        (c : Step) (db : Db) (n : ℕ)
        → let t = step c (opened db n) in
          (mailbox g db ++ posted db.gateways c ≡ delivered c (opened db n) ++ mailbox g t.saved)
          × (t.saved.gateways ≡ db.gateways)
          × (t.work ≡ t.saved)
    unfolding step delivered posted gateway_pull_sync
    step-mailbox (post station kind payload) db n =
        rw queue_station_event_lem (
          sym (queued-mailbox station kind payload db.gateways n db.gateway_sync_events),
          refl,
          refl,
        )
    step-mailbox (pull h) db n = (
      elim (Bool-cases (h == g)) [
        | inl own ↦
            let same : h ≡ g = ==→≡ h g own in
            rw
              (
                own,
                same,
                pull-empty db.gateway_sync_events,
                body-sent (filter (is_due g) db.gateway_sync_events),
              )
              refl
        | inr other ↦
            rw (other, pull-other h db.gateway_sync_events other) (append-nil (mailbox g db))
      ],
      refl,
      refl,
    )

    -- The queue is a mailbox of each gateway, whatever posts and pulls of whatever gateways are
    -- interleaved: what was waiting and what the posts bring is, in this order, what the gateway's
    -- pulls return and what still waits. So each posted event is returned at most once, none is lost,
    -- and none comes before an earlier one.
    pub run-mailbox :
        (cs : List Step) (db : Db) (n : ℕ)
        → mailbox g db ++ all_posted db.gateways cs
          ≡ all_delivered cs (opened db n) ++ mailbox g (run cs (opened db n)).saved
    unfolding run all_delivered all_posted
    run-mailbox [] db n = append-nil (mailbox g db)
    run-mailbox (c ∷ cs) db n =
        let t = step c (opened db n) in
        let (here, gateways, clean) = step-mailbox c db n in
        let later : mailbox g t.saved ++ all_posted t.saved.gateways cs
            ≡ all_delivered cs t ++ mailbox g (run cs t).saved =
          subst
            (λ (d : Db).
              mailbox g t.saved ++ all_posted t.saved.gateways cs
              ≡ all_delivered cs (record t { work = d })
                ++ mailbox g (run cs (record t { work = d })).saved)
            (sym clean) (run-mailbox cs t.saved t.draws) in
        sym (append_assoc (mailbox g db) (posted db.gateways c) (all_posted db.gateways cs))
        ∙ ap (λ l. l ++ all_posted db.gateways cs) here
        ∙ append_assoc (delivered c (opened db n)) (mailbox g t.saved) (all_posted db.gateways cs)
        ∙ ap
            (λ (ws : List Gateway).
              delivered c (opened db n) ++ (mailbox g t.saved ++ all_posted ws cs))
            (sym gateways)
        ∙ ap (λ l. delivered c (opened db n) ++ l) later
        ∙ sym (
            append_assoc (delivered c (opened db n)) (all_delivered cs t)
              (mailbox g (run cs t).saved))
