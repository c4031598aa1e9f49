-- ===== src/Cluster/Persisted.antt =====
-- `ClusterState` of src/expra_connect/cluster/operations.py, the aggregate that is saved, without its
-- dictionary form, and `Cluster.from_state`. Random texts, the hash of a token and the time are
-- arguments.
pub mod Restored
use expra_connect.Prelude.{
  ℕ, ℕ_eq, String, string_eq, option_eq, ◌==◌, Bool, true, false, not, ◌&&◌, ◌||◌, Option, none,
  some, Result, ok, err, value_error, permission_error, ◌>>=◌, ◌>>◌, raise_if, List, [], ◌∷◌, ◌++◌,
  Dict, put, contains, insert, if◌then◌else◌, Floats, find?, any, filter,
}
use expra_connect.Identity.{NodeId, init_node_id}
use expra_connect.Cluster.Models.{
  RoleAssignment, assignment, worker_only, coordinator_roles, CoordinatorEpoch, CapabilityGrant,
  InviteRecord, init_epoch,
}
use expra_connect.Cluster.RoleState.{index_assignments}
use expra_connect.Cluster.Operations.{Cluster}
use expra_connect.Cluster.Invites.{make_invite}

pub record ClusterState (F : Type 0) : Type 0 where
  pub local_node_id : String
  pub cluster_id : String
  pub role_assignments : List RoleAssignment
  pub coordinator_epoch : Option (CoordinatorEpoch F)
  pub active_invites : List (InviteRecord F)
  pub join_admissions : List (InviteRecord F)
  pub used_invites : List String
  pub promotion_epochs : List ℕ
  pub capability_grants : List (CapabilityGrant F)

abbrev or_local : String → Option RoleAssignment → RoleAssignment
or_local n none = assignment worker_only (some n)
or_local n (some a) = a

module _ {F : Type 0} where
  abbrev is_of : String → Option (CoordinatorEpoch F) → Bool
  is_of n none = false
  is_of n (some e) = e.coordinator_id == n

  unfoldable pub local_assignment : ClusterState F → RoleAssignment
  local_assignment s =
      or_local s.local_node_id (find? (λ a. a.node_id == some s.local_node_id) s.role_assignments)

  unfoldable pub is_active_coordinator : ClusterState F → Bool
  is_active_coordinator s =
      let a = local_assignment s in
      is_of s.local_node_id s.coordinator_epoch
      && not a.paused
      && not a.revoked
      && a.roles.coordinator

  -- {item.token_hash: item for item in items}, added to a dict
  unfoldable pub by_hash :
      List (InviteRecord F) → Dict String (InviteRecord F) → Dict String (InviteRecord F)
  by_hash [] d = d
  by_hash (i ∷ l) d = by_hash l (put i.token_hash i d)

module _ {F : Type 0} ⦃fl : Floats F⦄ where
  -- `create_local`, with its node id, the random cluster id and the random fencing token
  unfoldable pub create_local : String → String → String → F → Result (ClusterState F)
  create_local node cluster_id token now = do
    node_id ← init_node_id node
    epoch ← init_epoch (record {
      epoch = 1;
      coordinator_id = node_id;
      fencing_token = token;
      issued_at = now;
      lease_expires_at = fl.add now (fl.literal 120);
    })
    ok (record {
      local_node_id = node;
      cluster_id = cluster_id;
      role_assignments = assignment coordinator_roles (some node_id) ∷ [];
      coordinator_epoch = some epoch;
      active_invites = [];
      join_admissions = [];
      used_invites = [];
      promotion_epochs = [];
      capability_grants = [];
    })

  abbrev create_under :
      (String → String)
      → String
      → ClusterState F
      → String
      → F
      → F
      → Option (CoordinatorEpoch F)
      → Result (InviteRecord F × ClusterState F)
  create_under hash_invite token s target now ttl none =
      err (permission_error "only an active local Coordinator may create invites")
  create_under hash_invite token s target now ttl (some e) = do
    invite ← make_invite hash_invite token s.cluster_id target e now ttl
    ok (invite, record s { active_invites = s.active_invites ++ invite ∷ [] })

  unfoldable pub create_invite :
      (String → String)
      → String
      → ClusterState F
      → String
      → F
      → F
      → Result (InviteRecord F × ClusterState F)
  create_invite hash_invite token s target_node_id now ttl_seconds =
      if not (is_active_coordinator s)
      then err (permission_error "only an active local Coordinator may create invites")
      else create_under hash_invite token s target_node_id now ttl_seconds s.coordinator_epoch

  -- `==` of the dataclass
  abbrev same_invite : InviteRecord F → InviteRecord F → Bool
  same_invite i j =
      i.token_hash == j.token_hash
      && i.target_node_id == j.target_node_id
      && fl.eq i.expires_at j.expires_at
      && i.token == j.token
      && i.cluster_id == j.cluster_id
      && i.coordinator_id == j.coordinator_id
      && i.epoch == j.epoch
      && i.fencing_token == j.fencing_token

  -- the first invite with the digest is gone, and its digest used, before its time is read
  abbrev consume_found :
      ClusterState F
      → String
      → F
      → Option (InviteRecord F)
      → Result (InviteRecord F) × ClusterState F
  consume_found s digest current none =
      if contains digest s.used_invites
      then (err (value_error "pairing invite is expired or already consumed"), s)
      else (err (value_error "pairing invite is unknown or expired"), s)
  consume_found s digest current (some i) =
      let spent = record s {
        active_invites = filter (λ j. not (same_invite j i)) s.active_invites;
        used_invites = insert digest s.used_invites;
      } in
      if fl.le i.expires_at current
      then (err (value_error "pairing invite has expired"), spent)
      else (ok i, spent)

  unfoldable pub consume_invite :
      (String → String) → ClusterState F → String → F → Result (InviteRecord F) × ClusterState F
  consume_invite hash_invite s token current =
      if not (is_active_coordinator s)
      then (err (permission_error "only an active local Coordinator may consume invites"), s)
      else consume_found s (hash_invite token) current
          (find? (λ i. i.token_hash == hash_invite token) s.active_invites)

  abbrev new_cluster : NodeId → ClusterState F → Option (CoordinatorEpoch F) → Result (Cluster F)
  new_cluster local_id s none = err (value_error "local cluster has no coordinator epoch")
  new_cluster local_id s (some e) = ok (record {
    local_id = local_id;
    cluster_id = s.cluster_id;
    epoch = e;
    assignments = (local_id, local_assignment s) ∷ [];
    is_online = (local_id, true) ∷ [];
    invites = [];
    join_admissions = [];
    used_invites = s.used_invites;
    promotion_epochs = s.promotion_epochs;
    capability_grants = s.capability_grants;
  })

  -- `Cluster(local_id, clock=clock)`
  unfoldable pub init_cluster : NodeId → String → String → F → Result (Cluster F)
  init_cluster local_id cluster_id token now = do
    s ← create_local local_id cluster_id token now
    new_cluster local_id s s.coordinator_epoch

  abbrev restored : ClusterState F → CoordinatorEpoch F → Cluster F → Cluster F
  restored s e c = record c {
    cluster_id = s.cluster_id;
    epoch = e;
    assignments = index_assignments s.role_assignments [];
    used_invites = s.used_invites;
    promotion_epochs = s.promotion_epochs;
    capability_grants = s.capability_grants;
    invites = by_hash s.active_invites c.invites;
    join_admissions = by_hash s.join_admissions [];
  }

  abbrev restore :
      NodeId
      → ClusterState F
      → String
      → String
      → F
      → Option (CoordinatorEpoch F)
      → Result (Cluster F)
  restore local_id s cluster_id token now none =
      err (value_error "persisted cluster has no coordinator epoch")
  restore local_id s cluster_id token now (some e) = do
    fresh ← init_cluster local_id cluster_id token now
    ok (restored s e fresh)

  -- `from_state`, with the random texts and the time of the cluster that it makes first
  unfoldable pub from_state : NodeId → ClusterState F → String → String → F → Result (Cluster F)
  from_state local_id s cluster_id token now = do
    raise_if
        (not (s.local_node_id == local_id)
          || not (any (λ a. a.node_id == some local_id) s.role_assignments))
        (value_error "persisted cluster belongs to another local node")
    restore local_id s cluster_id token now s.coordinator_epoch
