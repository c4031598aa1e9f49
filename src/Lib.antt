-- ===== src/Lib.antt =====
-- Verification of the core of expra_connect.
--
-- Parts. A role state (src/expra_connect/cluster/roles.py, over the values of cluster/models.py) says
-- who coordinates, who works, and which capabilities are granted. The failover coordinator
-- (cluster/failover.py) holds one and changes it under a lock, persisting before it publishes. The
-- runtime aggregate `Cluster` (cluster/operations.py) keeps the same assignments as a dict, builds a
-- role state for each change, and admits nodes by invites (cluster/invites.py). The node registry
-- (nodes/registry.py) keeps trust, membership and connection of each node apart; connections/state.py
-- has the retry policy. Capability sharing (sharing/capabilities.py) runs handlers for allowed peers,
-- and the session registry (remote/session.py) keeps the current socket of each session. Discovery
-- (discovery/candidates.py) collects peers and chooses among their addresses and endpoints. The
-- pairing manager (pairing/manager.py) keeps the transactions, the trusted peers and the grants of
-- the two directions; pairing/target.py and runtime/core.py answer the requests of a caller over it,
-- and runtime/persistence.py saves and restores it. The remote service (remote/service.py) serves a
-- request under the grants, the fence of the cluster, and the caches of remote/wire_protocol.py; the
-- surface registry (surfaces/registry.py) decides who may read and act on a surface.
--
-- Files. All paths are under src/expra_connect.
--   Prelude: shared types, tests, lists, dicts, exceptions as values, and `Floats`, the interface for
--     Python's numbers as times with the laws of the order that the proofs use.
--   Identity: `NodeId` of identity/__init__.py, the permissions of data/permissions.py.
--   Cluster/Models: the dataclasses of cluster/models.py; `__post_init__` is `init_*`.
--   Cluster/RoleState: `RoleState`, its checks, `_control`, `_replace`, pause, resume, revoke and
--     clear_revocation. Cluster/Roles: assign, `_job`, the grants and `allows`.
--   Cluster/Lease: the functions after the class, `renew_lease` to `rejoin_as_worker`.
--   Cluster/Failover: `FailoverCoordinator`. Cluster/History: sequences of its operations.
--   Cluster/Operations: `Cluster` of cluster/operations.py. Cluster/Invites: its invites and join.
--   Cluster/Persisted: `ClusterState` and `from_state` of the same file.
--   Discovery: discovery/candidates.py. Discovery/Endpoints: `EndpointCandidate` of
--     discovery/models.py and its ranking.
--   Connections: connections/state.py. Nodes: nodes/registry.py. Sharing: sharing/capabilities.py.
--   Pairing: pairing/manager.py. Pairing/Relationship: its classification, queries and snapshots.
--     Pairing/Target: pairing/target.py. Pairing/Control: the handlers of runtime/core.py that confirm,
--     abort, elevate and reap. Pairing/Calls: the manager's methods as calls.
--   Remote/Replay, Remote/Idempotency: the two caches of remote/wire_protocol.py. Remote/Service: the
--     grants, the authorization and the fence of remote/service.py.
--   Surfaces: surfaces/registry.py. Surfaces/Protocol, Surfaces/JsonSafe: surfaces/protocol.py, whose
--     loop runs on the rounds that the value takes. Persistence: runtime/persistence.py.
--     Persistence/RoleStates: cluster/state.py.
--   Sessions: remote/session.py. Tests: the theorems at concrete values.
--
-- Conventions. A method that raises is a `Result`; where it may have changed the object first,
-- the object that it leaves is returned beside the result. A method that holds its lock is one
-- step. A frozenset of roles or permissions is a record of Booleans, other sets are lists
-- without order in what is said of them. Clocks, random tokens, hashes and callbacks of the host
-- are arguments. Epoch numbers and counters are Python ints without a bound, so natural numbers;
-- what may overflow is the doubling of a retry's wait, which is a float. Values are immutable,
-- so a snapshot never shares a dict with what it was taken from, and the copies that the code
-- makes of its dicts are not visible. A time is a number or `other`, a value that the code
-- refuses. Fuel: the 100 rounds of `_allocate_id_locked`, a bound of the code itself, and the
-- rounds of `_json_safe`, which are enough.
--
-- Not modelled: the dictionary form of `ClusterState` and invites, the pairing flow of the
-- caller, the connection manager, the envelopes of the wire protocol, the store of the
-- idempotency cache; and what is I/O or cryptography: transports, identity files, the runtime's
-- wiring, the command line. A signature check is a parameter, of which nothing is assumed.
pub mod Prelude
pub mod Identity
pub mod Cluster
pub mod Connections
pub mod Nodes
pub mod Sharing
pub mod Sessions
pub mod Discovery
pub mod Pairing
pub mod Remote
pub mod Surfaces
pub mod Persistence
pub mod Tests
