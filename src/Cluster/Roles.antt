-- ===== src/Cluster/Roles.antt =====
-- The operations of `RoleState` of src/expra_connect/cluster/roles.py that assign roles and jobs
-- and that grant capabilities, and the decision `allows`.
pub mod Keeps
pub mod Assign
pub mod Access
use expra_connect.Prelude.{
  string_eq, option_eq, pair_eq, ◌==◌, ◌||◌, ◌&&◌, Bool, true, false, not, Option, none, some,
  Result, role_authorization_error, raise_if, ◌>>=◌, ◌>>◌, ok, err, List, [], ◌∷◌, ◌++◌, map,
  if◌then◌else◌, Floats, lookup, filter, any,
}
use expra_connect.Identity.{NodeId, PermissionSet, NodePermission, permits}
use expra_connect.Cluster.Models.{
  RoleSet, RoleAssignment, init_assignment, CapabilityGrant, init_grant, RoleChange,
  init_role_change,
}
use expra_connect.Cluster.RoleState.{
  RoleState, Moment, number, other, grant_key, init_role_state, assignment_for, index_grants,
  control, replace, prune_capability_grants, is_inactive,
}

-- `current.paused if current is not None else False`, and the same for the job
abbrev paused_of : Option RoleAssignment → Bool
paused_of none = false
paused_of (some a) = a.paused

abbrev job_of : Option RoleAssignment → Bool
job_of none = false
job_of (some a) = a.has_active_job

abbrev revoked_of : Option RoleAssignment → Bool
revoked_of none = false
revoked_of (some a) = a.revoked

-- the assignments after `assign`: a known node is replaced, a new one is appended
abbrev pub place :
    RoleAssignment → NodeId → Option RoleAssignment → List RoleAssignment → List RoleAssignment
place new target current l =
    let replaced = map (λ a. if a.node_id == some target then new else a) l in
    elim current [ none ↦ replaced ++ new ∷ [] | some _ ↦ replaced ]

-- a Subcoordinator other than the target
abbrev pub is_other_subcoordinator : NodeId → RoleAssignment → Bool
is_other_subcoordinator target a =
    not (a.node_id == some target) && not a.revoked && a.roles.subcoordinator

-- the assignment that `assign` gives the target
unfoldable pub new_assignment : RoleSet → NodeId → Option RoleAssignment → Result RoleAssignment
new_assignment roles target current = do
  assigned ← init_assignment (record {
    roles = roles;
    node_id = some target;
    paused = paused_of current;
    revoked = false;
    has_active_job = job_of current;
  })
  if assigned.roles.worker
      then ok assigned
      else init_assignment (record assigned { has_active_job = false })

-- `current is None or current.revoked or WORKER not in current.roles or (active and current.paused)`
abbrev no_worker : Option RoleAssignment → Bool → Result RoleAssignment
no_worker none active = err (role_authorization_error "target has no active worker role")
no_worker (some a) active =
    if a.revoked || not a.roles.worker || (active && a.paused)
    then err (role_authorization_error "target has no active worker role")
    else ok a

abbrev has_subcoordinator : Option RoleAssignment → Bool
has_subcoordinator none = false
has_subcoordinator (some a) = a.roles.subcoordinator

abbrev has_worker : Option RoleAssignment → Bool
has_worker none = false
has_worker (some a) = a.roles.worker

abbrev has_coordinator : Option RoleAssignment → Bool
has_coordinator none = false
has_coordinator (some a) = a.roles.coordinator

module _ {F : Type 0} where
  -- `_job`
  unfoldable pub job : RoleState F → RoleAssignment → NodeId → Bool → Result (RoleState F)
  job s actor target active = do
    control s actor
    current ← no_worker (assignment_for s target) active
    updated ← init_assignment (record current { has_active_job = active })
    replace s updated

  unfoldable pub assign_job : RoleState F → RoleAssignment → NodeId → Result (RoleState F)
  assign_job s actor target = job s actor target true

  unfoldable pub remove_job : RoleState F → RoleAssignment → NodeId → Result (RoleState F)
  remove_job s actor target = job s actor target false

  abbrev pub without_grant : NodeId → NodeId → List (CapabilityGrant F) → List (CapabilityGrant F)
  without_grant subject target = filter (λ g. not (grant_key g == (subject, target)))

  unfoldable pub revoke_capabilities :
      RoleState F → RoleAssignment → NodeId → NodeId → Result (RoleState F)
  revoke_capabilities s actor subject target = do
    control s actor
    init_role_state
        (record s { capability_grants = without_grant subject target s.capability_grants })

module _ {F : Type 0} ⦃fl : Floats F⦄ where
  unfoldable pub assign :
      RoleState F → RoleAssignment → NodeId → RoleSet → F → Result (RoleState F × RoleChange F)
  assign s actor target roles now = do
    actor_id ← control s actor
    raise_if (target == actor_id)
        (role_authorization_error "the active Coordinator cannot target itself")
    raise_if roles.coordinator
        (role_authorization_error "Coordinator ownership cannot be delegated")
    let current = assignment_for s target
    raise_if (revoked_of current)
        (role_authorization_error "revoked node requires a new pairing invite")
    raise_if (roles.subcoordinator && any (is_other_subcoordinator target) s.assignments)
        (role_authorization_error "only one active Subcoordinator is allowed")
    assigned ← new_assignment roles target current
    let assignments = place assigned target current s.assignments
    updated ← init_role_state (record s {
      assignments = assignments;
      capability_grants = prune_capability_grants assignments s.capability_grants;
    })
    change ←
        init_role_change (record {
          node_id = target;
          assignment = assigned;
          changed_at = now;
          actor_id = actor_id;
        })
    ok (updated, change)

  unfoldable pub grant_capabilities :
      RoleState F → RoleAssignment → NodeId → NodeId → PermissionSet → F → F → Result (RoleState F)
  grant_capabilities s actor subject target permissions now expires_at = do
    control s actor
    let sub = assignment_for s subject
    let worker = assignment_for s target
    raise_if (is_inactive sub || not (has_subcoordinator sub))
        (role_authorization_error "capability subject is not an active Subcoordinator")
    raise_if (is_inactive worker || not (has_worker worker) || subject == target)
        (role_authorization_error "capability target is not an active Worker")
    grant ← init_grant (record {
      subject = subject;
      target = target;
      permissions = permissions;
      issued_at = now;
      expires_at = expires_at;
    })
    init_role_state (record s {
      capability_grants = without_grant subject target s.capability_grants ++ grant ∷ [];
    })

  -- `_finite(value)`
  unfoldable pub finite : Moment F → Bool
  finite (number x) = fl.is_finite x
  finite other = false

  -- `now >= expires_at`, for a finite `now`
  abbrev pub is_due : Moment F → F → Bool
  is_due (number x) expires_at = fl.le expires_at x
  is_due other expires_at = false

  abbrev live_grant : Option (CapabilityGrant F) → Option (Moment F) → Option (CapabilityGrant F)
  live_grant none now = none
  live_grant (some g) none = some g
  live_grant (some g) (some now) =
      if not (finite now) then none else if is_due now g.expires_at then none else some g

  -- The last argument is none where the source leaves `now` out.
  unfoldable pub capability_grant :
      RoleState F → NodeId → NodeId → Option (Moment F) → Option (CapabilityGrant F)
  capability_grant s subject target now =
      live_grant (lookup (subject, target) (index_grants s.capability_grants [])) now

  abbrev pub grant_permits : Option (CapabilityGrant F) → NodePermission → Bool
  grant_permits none p = false
  grant_permits (some g) p = permits g.permissions p

  unfoldable pub allows : RoleState F → NodeId → NodeId → NodePermission → Moment F → Bool
  allows s subject target permission now =
      let source = assignment_for s subject in
      let destination = assignment_for s target in
      if not (finite now)
      then false
      else if is_inactive source || is_inactive destination
      then false
      else if subject == target
      then true
      else if has_coordinator source
      then has_worker destination
      else has_subcoordinator source
        && has_worker destination
        && grant_permits (capability_grant s subject target (some now)) permission
