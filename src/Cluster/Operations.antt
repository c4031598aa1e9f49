-- ===== src/Cluster/Operations.antt =====
-- The runtime aggregate `Cluster` of src/expra_connect/cluster/operations.py. The clock's reading is
-- an argument. These methods change nothing when they raise.
use expra_connect.Prelude.{
  ℕ, ℕ_eq, String, string_eq, ◌==◌, Bool, true, false, not, ◌&&◌, ◌||◌, Option, none, some, Result,
  ok, err, value_error, permission_error, ◌>>=◌, ◌>>◌, raise_if, List, [], Dict, lookup, put,
  values, if◌then◌else◌, Floats,
}
use expra_connect.Identity.{NodeId}
use expra_connect.Cluster.Models.{
  ClusterRole, coordinator, worker, RoleAssignment, assignment, worker_only, singleton,
  CoordinatorEpoch, CapabilityGrant, InviteRecord,
}
use expra_connect.Cluster.RoleState.{RoleState, init_role_state, index_assignments}
use expra_connect.Cluster.RoleState as States
use expra_connect.Cluster.Roles as Roles
use expra_connect.Cluster.Lease.{compare_digest}

pub record Cluster (F : Type 0) : Type 0 where
  pub local_id : NodeId
  pub cluster_id : String
  pub epoch : CoordinatorEpoch F
  pub assignments : Dict NodeId RoleAssignment
  pub is_online : Dict NodeId Bool
  pub invites : Dict String (InviteRecord F)
  pub join_admissions : Dict String (InviteRecord F)
  pub used_invites : List String
  pub promotion_epochs : List ℕ
  pub capability_grants : List (CapabilityGrant F)

abbrev leads : Option RoleAssignment → Bool
leads none = false
leads (some a) = not a.paused && not a.revoked && a.roles.coordinator

abbrev or_worker : NodeId → Option RoleAssignment → RoleAssignment
or_worker n none = assignment worker_only (some n)
or_worker n (some a) = a

abbrev is_gone : Option RoleAssignment → Bool
is_gone none = true
is_gone (some a) = a.revoked

abbrev role_of : Option RoleAssignment → Result ClusterRole
role_of none = err (value_error "local node has no active role")
role_of (some a) =
    if a.revoked
    then err (value_error "local node has no active role")
    else ok (if a.roles.coordinator then coordinator else worker)

-- `self._online.setdefault(node_id, True)`
abbrev set_default : NodeId → Option Bool → Dict NodeId Bool → Dict NodeId Bool
set_default n none d = put n true d
set_default n (some b) d = d

abbrev or_false : Option Bool → Bool
or_false none = false
or_false (some b) = b

abbrev digests_agree : Result Bool → Result (Unit {0})
digests_agree (err e) = err e
digests_agree (ok b) = raise_if (not b) (permission_error "stale coordinator authority")

module _ {F : Type 0} where
  unfoldable pub is_active_coordinator : Cluster F → Bool
  is_active_coordinator c =
      leads (lookup c.local_id c.assignments) && c.epoch.coordinator_id == c.local_id

  unfoldable pub local_role : Cluster F → Result ClusterRole
  local_role c = role_of (lookup c.local_id c.assignments)

  unfoldable pub local_assignment : Cluster F → RoleAssignment
  local_assignment c = or_worker c.local_id (lookup c.local_id c.assignments)

  -- `_role_state`
  unfoldable pub role_state : Cluster F → Result (RoleState F)
  role_state c = init_role_state (record {
    assignments = values c.assignments;
    epoch = some c.epoch;
    promotion_epochs = c.promotion_epochs;
    capability_grants = c.capability_grants;
  })

  -- `_apply_role_state`
  unfoldable pub apply_role_state : Cluster F → RoleState F → Cluster F
  apply_role_state c s = record c {
    assignments = index_assignments s.assignments [];
    capability_grants = s.capability_grants;
  }

  unfoldable pub is_member : Cluster F → NodeId → Bool
  is_member c n = not (is_gone (lookup n c.assignments))

  unfoldable pub set_online : Cluster F → NodeId → Bool → Cluster F
  set_online c n online = record c { is_online = put n online c.is_online }

  unfoldable pub online : Cluster F → NodeId → Bool
  online c n = or_false (lookup n c.is_online)

  unfoldable pub revoke : Cluster F → NodeId → Result (Cluster F)
  revoke c n = do
    raise_if (not (is_active_coordinator c))
        (permission_error "only an active local Coordinator may revoke roles")
    if is_gone (lookup n c.assignments) then ok c else do
      s ← role_state c
      updated ← States.revoke s (local_assignment c) n
      ok (apply_role_state c updated)

  -- `or` stops at the first test that is true
  unfoldable pub authorize : Cluster F → String → ℕ → String → Result (Unit {0})
  authorize c cluster_id epoch fencing_token =
      if not (cluster_id == c.cluster_id) || not (epoch == c.epoch.epoch)
      then err (permission_error "stale coordinator authority")
      else digests_agree (compare_digest fencing_token c.epoch.fencing_token)

module _ {F : Type 0} ⦃fl : Floats F⦄ where
  unfoldable pub assign : Cluster F → NodeId → ClusterRole → F → Result (Cluster F)
  assign c n role now = do
    raise_if (not (is_active_coordinator c))
        (permission_error "only an active local Coordinator may assign roles")
    s ← role_state c
    (updated, change) ← Roles.assign s (local_assignment c) n (singleton role) now
    ok (record (apply_role_state c updated) {
      is_online = set_default n (lookup n c.is_online) c.is_online;
    })
