-- ===== src/Remote/Service.antt =====
-- What `RemoteService` of src/expra_connect/remote/service.py decides a request by: the grants with
-- their version, the permission of an operation, and the fence of the cluster. Each lock makes its
-- part one step; a reading of the clock is an argument.
pub mod Current
pub mod Fencing
use expra_connect.Prelude.{
  ℕ, ◌+◌, String, string_eq, option_eq, ◌==◌, Bool, true, false, not, ◌&&◌, ◌||◌, Option, none,
  some, Result, ok, err, remote_auth_error, remote_authorization_error, remote_protocol_error,
  remote_unavailable_error, value_error, raise_if, ◌>>◌, ◌>>=◌, List, [], ◌∷◌, Dict, lookup,
  contains, any, find?, ltb, nat_eq, if◌then◌else◌, Floats, ℕ_eq,
}
use expra_connect.Identity.{NodeId, NodePermission, PermissionSet, CapabilitySet, permits, is_empty}
use expra_connect.Cluster.Models.{CapabilityGrant}
use expra_connect.Cluster.Lease.{compare_digest}

-- `PeerGrant` of src/expra_connect/remote/wire_protocol.py
pub record ServiceGrant (F : Type 0) : Type 0 where
  pub caller_node_id : NodeId
  pub secret : String
  pub permissions : PermissionSet
  pub expires_at : Option F

pub record Fence : Type 0 where
  pub cluster_id : Option String
  pub coordinator_epoch : Option ℕ
  pub fencing_token : Option String

pub record RemoteService (F : Type 0) : Type 0 where
  pub node_id : NodeId
  pub secret : String
  pub capabilities : CapabilitySet
  pub own_permissions : PermissionSet
  pub grant_mode : Bool
  pub grants : Dict NodeId (ServiceGrant F)
  pub cluster_capability_grants : List (CapabilityGrant F)
  pub grant_version : ℕ
  pub fence : Fence

-- the fields of the parameters of a role operation that the fence reads
pub record RoleFence : Type 0 where
  pub cluster_id : Option String
  pub epoch : Option ℕ
  pub fencing_token : Option String

-- the fields of a `RemoteRequest` that the authorization reads
pub record ServiceRequest : Type 0 where
  pub caller_node_id : Option NodeId
  pub op : String

-- the values of OP_REQUIRED_CAPABILITY, as the permission of the same text
abbrev pub read_operations : List String
read_operations =
    "hello" ∷ "ping" ∷ "echo" ∷ "demo.read_state" ∷ "dashboard_snapshot" ∷ "component_summary"
    ∷ "process_candidates" ∷ "storage_candidates" ∷ "revoke_self" ∷ "capability_request"
    ∷ "surface_read" ∷ "surface_review" ∷ []

abbrev pub management_operations : List String
management_operations =
    "process_request_quit" ∷ "process_force_quit" ∷ "consume_invite" ∷ "assign_role"
    ∷ "renew_coordinator_lease" ∷ "revoke_member" ∷ "pause_worker" ∷ "resume_worker"
    ∷ "revoke_worker" ∷ "remove_job" ∷ "remove_connection" ∷ "grant_capabilities"
    ∷ "revoke_capabilities" ∷ "sync_capability_grant" ∷ "worker_snapshot" ∷ "standby_batch"
    ∷ "surface_action" ∷ []

unfoldable pub required_permission : String → Option NodePermission
required_permission op =
    if contains op read_operations
    then some NodePermission.read_state
    else if contains op management_operations
    then some NodePermission.remote_management
    else none

abbrev pub surface_operations : List String
surface_operations = "surface_read" ∷ "surface_review" ∷ "surface_action" ∷ []

-- `required in self._capabilities`, for the two capabilities
unfoldable pub has_capability : CapabilitySet → NodePermission → Bool
has_capability c NodePermission.read_state = c.can_read_state
has_capability c NodePermission.remote_management = c.can_manage
has_capability c _ = false

-- `permissions & other`
unfoldable pub common : PermissionSet → PermissionSet → PermissionSet
common a b = record {
  read_state = a.read_state && b.read_state;
  remote_management = a.remote_management && b.remote_management;
  process_termination = a.process_termination && b.process_termination;
  process_force_termination = a.process_force_termination && b.process_force_termination;
  cleanup = a.cleanup && b.cleanup;
}

-- str(value)
abbrev pub str : Option String → String
str none = "None"
str (some text) = text

unfoldable pub token_matches : Option String → Option String → Result (Unit {0})
token_matches given none = ok tt
token_matches given (some token) = do
  same ← compare_digest (str given) token
  raise_if (not same) (remote_authorization_error "coordinator fencing token is stale")

-- `_verify_role_fence`
unfoldable pub verify_role_fence : Fence → RoleFence → Result (Unit {0})
verify_role_fence f r = do
  raise_if (not (f.cluster_id == none) && not (r.cluster_id == f.cluster_id))
      (remote_authorization_error "cluster identity is invalid")
  raise_if (not (f.coordinator_epoch == none) && not (r.epoch == f.coordinator_epoch))
      (remote_authorization_error "coordinator epoch is stale")
  token_matches r.fencing_token f.fencing_token

abbrev pub conflicting : {A : Type 0} → Result A
conflicting = err (remote_authorization_error "coordinator fencing token conflicts")

abbrev pub same_epoch_fence : Fence → String → Option String → Result Fence
same_epoch_fence f token none = conflicting
same_epoch_fence f token (some current) = do
  same ← compare_digest token current
  raise_if (not same) (remote_authorization_error "coordinator fencing token conflicts")
  ok f

abbrev pub new_fence : String → ℕ → String → Fence
new_fence cluster_id epoch token = record {
  cluster_id = some cluster_id;
  coordinator_epoch = some epoch;
  fencing_token = some token;
}

abbrev pub fence_at : Fence → String → ℕ → String → Option ℕ → Result Fence
fence_at f cluster_id epoch token none = ok (new_fence cluster_id epoch token)
fence_at f cluster_id epoch token (some current) =
    if not (f.cluster_id == some cluster_id)
    then ok (new_fence cluster_id epoch token)
    else if ltb epoch current
    then err (remote_authorization_error "cannot install an older coordinator epoch")
    else if nat_eq epoch current
    then same_epoch_fence f token f.fencing_token
    else ok (new_fence cluster_id epoch token)

-- `update_cluster_fence`
unfoldable pub update_cluster_fence : Fence → String → ℕ → String → Result Fence
update_cluster_fence f cluster_id epoch token =
    fence_at f cluster_id epoch token f.coordinator_epoch

module _ {F : Type 0} ⦃fl : Floats F⦄ where
  -- `grant.expires_at is not None and now >= grant.expires_at`
  unfoldable pub has_expired : ServiceGrant F → F → Bool
  has_expired g now = elim g.expires_at [ none ↦ false | some t ↦ fl.le t now ]

  abbrev pub caller_grant : RemoteService F → Option NodeId → F → Result (Option (ServiceGrant F))
  caller_grant s none now = err (remote_auth_error "request caller identity is required")
  caller_grant s (some caller) now = elim (lookup caller s.grants) [
    | none ↦ err (remote_auth_error "request caller identity is unknown")
    | some g ↦
        if has_expired g now
        then err (remote_auth_error "request caller grant has expired")
        else ok (some g)
  ]

  -- the first locked part of `handle`: the grant, with the version that it was read at
  unfoldable pub grant_snapshot :
      RemoteService F → Option NodeId → F → Result (Option (ServiceGrant F) × ℕ)
  grant_snapshot s caller now = do
    g ← if s.grant_mode then caller_grant s caller now else ok none
    ok (g, s.grant_version)

  abbrev pub is_expired_grant : Option (ServiceGrant F) → F → Bool
  is_expired_grant none now = false
  is_expired_grant (some g) now = has_expired g now

  -- `_assert_grant_snapshot_current`
  unfoldable pub assert_grant_snapshot_current :
      RemoteService F → Option (ServiceGrant F) → ℕ → F → Result (Unit {0})
  assert_grant_snapshot_current s grant version now = do
    raise_if (not (version == s.grant_version))
        (remote_authorization_error "caller permission changed")
    raise_if (is_expired_grant grant now) (remote_authorization_error "caller grant has expired")

  -- `update_grants`, for grants whose secrets are valid
  unfoldable pub update_grants :
      RemoteService F → Dict NodeId (ServiceGrant F) → Result (RemoteService F)
  update_grants s grants = do
    raise_if
        (any (λ p. elim p.1.expires_at [ none ↦ false | some t ↦ not (fl.is_finite t) ]) grants)
        (value_error "peer grant expiry must be finite")
    ok (record s { grant_mode = true; grants = grants; grant_version = s.grant_version + 1 })

  unfoldable pub update_cluster_capability_grants :
      RemoteService F → List (CapabilityGrant F) → RemoteService F
  update_cluster_capability_grants s grants = record s {
    cluster_capability_grants = grants;
    grant_version = s.grant_version + 1;
  }

  -- the grant of the cluster for a caller
  unfoldable pub cluster_grant : RemoteService F → Option NodeId → F → Option (CapabilityGrant F)
  cluster_grant s none now = none
  cluster_grant s (some caller) now =
      find? (λ g. g.subject == caller && g.target == s.node_id && fl.lt now g.expires_at)
        s.cluster_capability_grants

  abbrev pub pair_permissions : RemoteService F → Option (ServiceGrant F) → PermissionSet
  pair_permissions s none = s.own_permissions
  pair_permissions s (some g) = g.permissions

  abbrev pub effective : PermissionSet → Option (CapabilityGrant F) → Result PermissionSet
  effective p none = ok p
  effective p (some g) =
      if is_empty (common p g.permissions)
      then err
          (remote_authorization_error "cluster capability grant has no Pair permission overlap")
      else ok (common p g.permissions)

  abbrev pub check_surface :
      Option NodeId
      → Option (CapabilityGrant F)
      → Option (NodeId → Bool → Result (Unit {0}))
      → Result (Unit {0})
  check_surface none g surface =
      err (remote_authorization_error "caller identity required for surface requests")
  check_surface (some caller) g none =
      err (remote_unavailable_error "surface sharing is unavailable")
  check_surface (some caller) none (some surface) = surface caller false
  check_surface (some caller) (some g) (some surface) = surface caller true

  abbrev pub authorize_required :
      RemoteService F
      → ServiceRequest
      → Option (ServiceGrant F)
      → F
      → Option (NodeId → Bool → Result (Unit {0}))
      → Option NodePermission
      → Result (Option (CapabilityGrant F))
  authorize_required s r grant now surface none = err (remote_protocol_error "unknown operation")
  authorize_required s r grant now surface (some required) = do
    raise_if (not (has_capability s.capabilities required))
        (remote_authorization_error "node is not authorised")
    let g = cluster_grant s r.caller_node_id now
    permissions ← effective (pair_permissions s grant) g
    raise_if (not (permits permissions required))
        (remote_authorization_error "caller lacks permission")
    if contains r.op surface_operations then check_surface r.caller_node_id g surface else ok tt
    ok g

  -- `_authorize_request`, for parameters that are valid. `surface` is what the registry of surfaces
  -- answers for the request, to a caller with a grant of the cluster or without.
  unfoldable pub authorize_request :
      RemoteService F
      → ServiceRequest
      → Option (ServiceGrant F)
      → F
      → Option (NodeId → Bool → Result (Unit {0}))
      → Result (Option (CapabilityGrant F))
  authorize_request s r grant now surface =
      authorize_required s r grant now surface (required_permission r.op)
