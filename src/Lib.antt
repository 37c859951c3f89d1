-- ===== src/Lib.antt =====
-- SmartParcelStation: a server for parcel stations (smartparcel-server), the gateway of a station
-- (smartparcel-gateway), and their clients. The server keeps users, access cards, parcels and the
-- queue of events for the gateways in a database; a gateway signs its requests to the server.
--
-- Files:
--   Prelude, Prelude/Tests, Prelude/Rows, Prelude/Int, Prelude/Xor: shared names, Boolean tests, lists
--     as tables, integers over the native numbers, bits.
--   Text, Text/Digits, Json: Python's `strip`, `upper`, `int` and `str`; JSON values and dictionaries.
--   Session: a SQLAlchemy session, with the committed database `saved`, the uncommitted `work` and the
--     number of clock readings and random values drawn so far. An action returns a result or raises.
--   Runtime: what comes from outside the code, as parameters: clock, random texts, hashes, new keys.
--   Server/Enums, Server/Models, Server/Config: smartparcel-server/app/models/enums.py,
--     app/models/models.py and app/core/config.py.
--   Server/Auth: `verify_gateway_request` and what it calls, app/core/security.py.
--   Server/Accounts: `hash_password` to `login_with_password`, app/services/services.py, and
--     `create_access_token`, app/core/security.py.
--     The base64 and JSON functions of the libraries are parameters, as a `Codec`.
--   Server/Accounts/Identity: who makes a request, app/core/security.py; Tokens and Headers are about it.
--   Server/Accounts/Users and Server/Accounts/Notifications: stations, accounts, the default accounts and the
--     notifications, app/services/services.py; Server/Listing has the order and the limit of the lists.
--   Server/Events: `_station_gateways` and `_queue_station_event`, app/services/services.py.
--   Server/Cards: `bind_user_card`, `list_user_cards`, `report_card_lost` and `disable_user_card`,
--     app/services/services.py.
--   Server/Registration, Server/Registration/Activation: registration tokens, from
--     `generate_registration_token` to `activate_gateway_registration`, app/services/services.py.
--   Server/Pickup: `pickup_confirm`, `list_user_pickup_list` and `list_user_pickup_history`,
--     app/services/services.py.
--   Server/Payload: `optional_int`, and how the services read the payload of an event, as parsed JSON.
--   Server/GateAuth: `request_gate_auth`, app/services/services.py, and its endpoints; Gateway/Inbox/GateRequests
--     follows a request to the gateway.
--   Server/Provisioning: `prepare_gateway_provisioning` and `confirm_gateway_provisioning`,
--     app/services/services.py.
--   Server/Sync, Server/Sync/Apply: `gateway_pull_sync`, `gateway_push_sync`,
--     `create_gateway_event`, and from `apply_gateway_business_event` to
--     `apply_gateway_pickup_event`, app/services/services.py.
--   Gateway/Enums, Gateway/Entities, Gateway/Config: smartparcel-gateway/gateway/models/entities.py
--     and gateway/core/config.py.
--   Gateway/Outside: the gateway's uses of the radio, of the server's answers and of `json.dumps`, as
--     parameters.
--   Gateway/Client: the requests to the server, smartparcel-gateway/gateway/core/security.py and
--     gateway/services/server_client.py.
--   Gateway/Ble: the frames of the tags, smartparcel-gateway/gateway/services/ble/protocol.py, and the
--     payloads of services/ble/real.py.
--   Gateway/LocalAuth: who may call the local API, smartparcel-gateway/gateway/local_api_auth.py.
--   Gateway/SecurityAudit: `SecurityAuditService`, gateway/services/security_audit_service.py.
--   Gateway/Provisioning: the checks of a binding request and the file that it writes,
--     gateway/provisioning_api.py.
--   Gateway/Tasks, Gateway/Sync: `TaskService`, `enqueue_event_upload`, `create_pickup_event` and `sync_push_once`, of
--     smartparcel-gateway/gateway/services/task_service.py and sync_service.py.
--   Gateway/Access, Gateway/Access/Wake, Gateway/Access/Card: `handle_access_card`, of
--     smartparcel-gateway/gateway/services/access_control_service.py: the answers and `_deny`, the loop
--     that wakes the tags, and the handler.
--   Gateway/Access/ByUser: `handle_gate_auth_by_user`, of the same file.
--   Gateway/Inbox: `sync_pull_once` and `apply_sync_event`, of gateway/services/sync_service.py: how a
--     payload is read (Read), the events of cards (Credentials) and of parcels (Parcels), and the older
--     answer of the server (Legacy). Frame, Retired, CardEvents, ParcelEvents and Kinds follow the
--     stored cards through each of them, Safety through sequences, and Disabled from the server to
--     the gate.
--   Server/Sync/Answer: what a gateway is sent, app/api/v1/endpoints/endpoints.py.
--   Server/Examples, Gateway/Examples and the files named Tests: concrete values and examples.
--
-- Bounds and fuel: numbers are unbounded, as in Python. `str_of` runs on fuel one above its argument,
-- which is more than its number of digits. All other recursion is structural.
--
-- Not modelled: HTTP and MQTT input and output, the radio, failures of the database, of files and of
-- the writes of audit rows, log lines, terminal and Qt user interfaces, database set-up and migrations,
-- the firmware, and the columns `created_at` and `updated_at`. Row locks and refreshes change no value
-- and are left out: the requests of a sequence run one after another. A selection without ORDER BY
-- returns its rows in the order in which they were inserted.
pub mod Prelude
pub mod Text
pub mod Json
pub mod Session
pub mod Runtime
pub mod Server
pub mod Gateway
