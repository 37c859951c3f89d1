-- ===== src/Server/Events/Queue.antt =====
-- What `_queue_station_event` adds, and what it leaves alone.
use mathlib.Core.List.{append-nil, append_assoc}
use smart_parcel_station.Prelude.{
  ℕ, ◌+◌, List, [], ◌∷◌, ◌++◌, map, ◌≡◌, refl, sym, ap, ◌∙◌, filter, All, ◌==◌,
}
use smart_parcel_station.Json.{Fields}
use smart_parcel_station.Session.{ok, Session, for_each}
use smart_parcel_station.Runtime.{Runtime}
use smart_parcel_station.Server.Enums.{SyncDirection, SyncStatus, GatewaySyncEventType}
use smart_parcel_station.Server.Enums.Values.{gateway_sync_event_type_value}
use smart_parcel_station.Server.Models.{Db, Gateway, GatewaySyncEvent}
use smart_parcel_station.Server.Events.{station_event, queue_for, queue_station_event}

module _ (rt : Runtime) (station_id : ℕ) (event_type : GatewaySyncEventType)
    (payload : Fields) where
  -- The queue after the loop: one row for each gateway, in their order.
  unfoldable pub queued : List Gateway → ℕ → List GatewaySyncEvent → List GatewaySyncEvent
  queued [] n rows = rows
  queued (g ∷ gs) n rows =
      queued gs (n + 1)
        (rows ++ station_event rt station_id event_type payload g (rt.uuid_hex n) rows ∷ [])

  -- the draws that the loop has made
  pub advance : List Gateway → ℕ → ℕ
  advance [] n = n
  advance (g ∷ gs) n = advance gs (n + 1)

  abbrev pub after_queue : List Gateway → Session Db → Session Db
  after_queue gs s = record s {
    work = record s.work { gateway_sync_events = queued gs s.draws s.work.gateway_sync_events };
    draws = advance gs s.draws;
  }

  for_each-queue_for :
      (gs : List Gateway) (s : Session Db)
      → for_each gs (queue_for rt station_id event_type payload) s ≡ (ok tt, after_queue gs s)
  unfolding for_each queue_for queued advance
  for_each-queue_for [] s = refl
  for_each-queue_for (g ∷ gs) s = for_each-queue_for gs (record s {
    work = record s.work {
      gateway_sync_events =
          s.work.gateway_sync_events
          ++ station_event rt station_id event_type payload g (rt.uuid_hex s.draws)
              s.work.gateway_sync_events
            ∷ [];
    };
    draws = s.draws + 1;
  })

  -- The action succeeds, and this is the state that it leaves.
  pub queue_station_event_lem :
      (s : Session Db)
      → queue_station_event rt station_id event_type payload s
        ≡ (ok tt, after_queue (filter (λ g. g.station_id == station_id) s.work.gateways) s)
  unfolding queue_station_event
  queue_station_event_lem s =
      for_each-queue_for (filter (λ g. g.station_id == station_id) s.work.gateways) s

  -- a pending event of this kind, with this payload
  pub record IsQueued (e : GatewaySyncEvent) : Type 0 where
    pub kind : e.event_type ≡ gateway_sync_event_type_value event_type
    pub station : e.station_id ≡ station_id
    pub outgoing : e.direction ≡ SyncDirection.server_to_gateway
    pub payload_kept : e.payload_json ≡ payload
    pub pending : e.status ≡ SyncStatus.pending
    pub untried : e.retry_count ≡ 0

  abbrev pub IsAdded : List Gateway → List GatewaySyncEvent → List GatewaySyncEvent → Type 0
  IsAdded gs rows rows' =
      (added : List GatewaySyncEvent) × (rows' ≡ rows ++ added)
      × (map (λ e. e.gateway_id) added ≡ map (λ g. g.id) gs)
      × All IsQueued added

  queued-IsAdded :
      (gs : List Gateway) (n : ℕ) (rows : List GatewaySyncEvent)
      → IsAdded gs rows (queued gs n rows)
  unfolding queued
  queued-IsAdded [] n rows = ([], sym (append-nil rows), refl, tt)
  queued-IsAdded (g ∷ gs) n rows =
      let e = station_event rt station_id event_type payload g (rt.uuid_hex n) rows in
      let (added, same, ids, kinds) = queued-IsAdded gs (n + 1) (rows ++ e ∷ []) in
      (
        e ∷ added,
        same ∙ append_assoc rows (e ∷ []) added,
        ap (λ l. g.id ∷ l) ids,
        (
          record {
            kind = refl;
            station = refl;
            outgoing = refl;
            payload_kept = refl;
            pending = refl;
            untried = refl;
          },
          kinds,
        ),
      )

  -- Queueing an event for a station adds, behind the events that are there, exactly one pending event
  -- for each gateway of the station, in the order of the gateways and with the given kind and payload,
  -- and changes no other table; nothing is committed.
  pub queue_station_event-IsAdded :
      (s : Session Db)
      → let (r, t) = queue_station_event rt station_id event_type payload s in
        (r ≡ ok tt)
        × IsAdded
            (filter (λ g. g.station_id == station_id) s.work.gateways)
            s.work.gateway_sync_events
            t.work.gateway_sync_events
        × (t.work ≡ record s.work { gateway_sync_events = t.work.gateway_sync_events })
        × (t.saved ≡ s.saved)
  queue_station_event-IsAdded s =
      rw (queue_station_event_lem s) (refl, queued-IsAdded _ s.draws _, refl, refl)
