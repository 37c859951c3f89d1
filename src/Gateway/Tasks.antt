-- ===== src/Gateway/Tasks.antt =====
-- `TaskService` of smartparcel-gateway/gateway/services/task_service.py.
use smart_parcel_station.Prelude.{
  ℕ, ◌+◌, String, true, Option, none, some, [], ◌∷◌, ◌++◌, map, ◌==◌, update_where,
}
use smart_parcel_station.Json.{Fields, object}
use smart_parcel_station.Session.{Action, pure, gets, draw, modify, commit, ◌>>=◌, ◌>>◌}
use smart_parcel_station.Runtime.{Runtime}
use smart_parcel_station.Gateway.Enums.{TaskType, TaskTargetType, TaskStatus}
use smart_parcel_station.Gateway.Entities.{LocalDb, GatewayTask}
use smart_parcel_station.Gateway.Outside.{Outside}

abbrev pub set_task : ℕ → (GatewayTask → GatewayTask) → LocalDb → LocalDb
set_task id f db = record db { gateway_tasks = update_where (λ t. t.id == id) f db.gateway_tasks }

module _ (rt : Runtime) (out : Outside) where
  unfoldable pub create_task :
      TaskType → TaskTargetType → Fields → Option String → ℕ → Action LocalDb GatewayTask
  create_task task_type target_type payload target_id priority = do
    task_id ← draw rt.uuid_hex
    rows ← gets (λ db. db.gateway_tasks)
    let task : GatewayTask = record {
      id = rt.next_id (map (λ t. t.id) rows);
      task_id = task_id;
      task_type = task_type;
      target_type = target_type;
      target_id = target_id;
      payload_json = out.dumps true (object payload);
      priority = priority;
      status = TaskStatus.pending;
      retry_count = 0;
      error_message = none;
      started_at = none;
      finished_at = none;
    }
    modify (λ db. record db { gateway_tasks = db.gateway_tasks ++ task ∷ [] })
    commit
    pure task

  abbrev pub running : ℕ → GatewayTask → GatewayTask
  running now task = record task { status = TaskStatus.running; started_at = some now }

  abbrev pub done : ℕ → GatewayTask → GatewayTask
  done now task = record task { status = TaskStatus.done; finished_at = some now }

  abbrev pub failed : ℕ → String → GatewayTask → GatewayTask
  failed now message task = record task {
    status = TaskStatus.failed;
    error_message = some message;
    retry_count = task.retry_count + 1;
    finished_at = some now;
  }

  unfoldable pub mark_running : GatewayTask → Action LocalDb (Unit {0})
  mark_running task = do now ← draw rt.clock; modify (set_task task.id (running now)); commit

  unfoldable pub mark_done : GatewayTask → Action LocalDb (Unit {0})
  mark_done task = do now ← draw rt.clock; modify (set_task task.id (done now)); commit

  unfoldable pub mark_failed : GatewayTask → String → Action LocalDb (Unit {0})
  mark_failed task message = do
    now ← draw rt.clock
    modify (set_task task.id (failed now message))
    commit
