-- ===== src/Cluster/Models.antt =====
-- The immutable values of src/expra_connect/cluster/models.py. A constructor with checks is a
-- function `init_*` from the fields to the value or the exception; `replace(x, f=v)` runs it on
-- `record x { f = v }`.
use expra_connect.Prelude.{
  ℕ, String, string_eq, ◌==◌, ◌||◌, ◌&&◌, Bool, true, false, not, Option, Result, value_error,
  raise_if, ◌>>◌, ok, Floats,
}
use expra_connect.Identity.{NodeId, PermissionSet, is_empty}

pub data ClusterRole : Type 0 where
  worker coordinator subcoordinator : ClusterRole

-- A `frozenset[ClusterRole]`: which of the three roles it holds.
pub record RoleSet : Type 0 where
  pub worker : Bool
  pub coordinator : Bool
  pub subcoordinator : Bool

abbrev pub worker_only : RoleSet
worker_only = record { worker = true; coordinator = false; subcoordinator = false }

-- frozenset({ClusterRole.COORDINATOR, ClusterRole.WORKER})
abbrev pub coordinator_roles : RoleSet
coordinator_roles = record { worker = true; coordinator = true; subcoordinator = false }

-- frozenset({role})
abbrev pub singleton : ClusterRole → RoleSet
singleton worker = worker_only
singleton coordinator = record { worker = false; coordinator = true; subcoordinator = false }
singleton subcoordinator = record { worker = false; coordinator = false; subcoordinator = true }

pub record RoleAssignment : Type 0 where
  pub roles : RoleSet
  pub node_id : Option NodeId
  pub paused : Bool
  pub revoked : Bool
  pub has_active_job : Bool

-- A Coordinator is also a Worker, and a node with no role is a Worker.
unfoldable pub normal_roles : RoleSet → RoleSet
normal_roles r = record r {
  worker = r.worker || r.coordinator || not (r.coordinator || r.subcoordinator);
}

unfoldable pub init_assignment : RoleAssignment → Result RoleAssignment
unfolding normal_roles
init_assignment a = do
  let roles = normal_roles a.roles
  raise_if (roles.coordinator && roles.subcoordinator)
      (value_error "a node cannot be both Coordinator and Subcoordinator")
  raise_if (a.revoked && a.paused) (value_error "a revoked node cannot also be paused")
  ok (record a { roles = roles })

-- The defaults of the dataclass, at a set of roles and a node.
abbrev pub assignment : RoleSet → Option NodeId → RoleAssignment
assignment r n = record {
  roles = r;
  node_id = n;
  paused = false;
  revoked = false;
  has_active_job = false;
}

pub record CoordinatorEpoch (F : Type 0) : Type 0 where
  pub epoch : ℕ
  pub coordinator_id : NodeId
  pub fencing_token : String
  pub issued_at : F
  pub lease_expires_at : F

pub record CapabilityGrant (F : Type 0) : Type 0 where
  pub subject : NodeId
  pub target : NodeId
  pub permissions : PermissionSet
  pub issued_at : F
  pub expires_at : F

pub record RoleChange (F : Type 0) : Type 0 where
  pub node_id : NodeId
  pub assignment : RoleAssignment
  pub changed_at : F
  pub actor_id : NodeId

pub record InviteRecord (F : Type 0) : Type 0 where
  pub token_hash : String
  pub target_node_id : String
  pub expires_at : F
  pub token : String
  pub cluster_id : String
  pub coordinator_id : String
  pub epoch : ℕ
  pub fencing_token : String

module _ {F : Type 0} ⦃fl : Floats F⦄ where
  unfoldable pub init_epoch : CoordinatorEpoch F → Result (CoordinatorEpoch F)
  init_epoch e = do
    raise_if
        (e.fencing_token == ""
          || not (fl.is_finite e.issued_at)
          || not (fl.is_finite e.lease_expires_at)
          || fl.lt e.lease_expires_at e.issued_at)
        (value_error "invalid coordinator epoch")
    ok e

  unfoldable pub init_grant : CapabilityGrant F → Result (CapabilityGrant F)
  unfolding is_empty
  init_grant g = do
    raise_if
        (is_empty g.permissions
          || not (fl.is_finite g.issued_at)
          || not (fl.is_finite g.expires_at))
        (value_error "invalid capability grant")
    raise_if (fl.le g.expires_at g.issued_at)
        (value_error "capability grant must expire after issuance")
    ok g

  unfoldable pub init_role_change : RoleChange F → Result (RoleChange F)
  init_role_change c = do
    raise_if (not (fl.is_finite c.changed_at)) (value_error "invalid role change time")
    ok c

  unfoldable pub init_invite : InviteRecord F → Result (InviteRecord F)
  init_invite i = do
    raise_if (i.token_hash == "" || not (fl.is_finite i.expires_at)) (value_error "invalid invite")
    ok i
