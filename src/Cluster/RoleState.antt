-- ===== src/Cluster/RoleState.antt =====
-- `RoleState` of src/expra_connect/cluster/roles.py: its checks, its queries and its operations.
-- The memoised indices are rebuilt at each use: the object is immutable, so the cache changes no
-- result. A set of epochs is a list.
pub mod Lookup
pub mod Valid
pub mod Keeps
pub mod Removal
pub mod Revoked
use expra_connect.Prelude.{
  ℕ, string_eq, option_eq, pair_eq, ◌==◌, ◌||◌, ◌&&◌, Bool, true, false, not, Option, none, some,
  Result, value_error, role_authorization_error, raise_if, ◌>>=◌, ◌>>◌, ok, err, ltb, List, [], ◌∷◌,
  map, if◌then◌else◌, Dict, lookup, put, filter, count, find?, distinct,
}
use expra_connect.Identity.{NodeId}
use expra_connect.Cluster.Models.{
  RoleAssignment, init_assignment, CoordinatorEpoch, CapabilityGrant,
}

pub record RoleState (F : Type 0) : Type 0 where
  pub assignments : List RoleAssignment
  pub epoch : Option (CoordinatorEpoch F)
  pub promotion_epochs : List ℕ
  pub capability_grants : List (CapabilityGrant F)

abbrev pub is_bound : RoleAssignment → Bool
is_bound a = elim a.node_id [ none ↦ false | some _ ↦ true ]

abbrev pub is_active_coordinator : RoleAssignment → Bool
is_active_coordinator a = is_bound a && not a.revoked && a.roles.coordinator

abbrev pub is_active_subcoordinator : RoleAssignment → Bool
is_active_subcoordinator a = is_bound a && not a.revoked && a.roles.subcoordinator

-- An `object` that is used as a time: a number, or anything else (a bool too).
pub data Moment (F : Type 0) : Type 0 where
  number : F → Moment F
  other : Moment F

abbrev add_to_index :
    Option NodeId → RoleAssignment → Dict NodeId RoleAssignment → Dict NodeId RoleAssignment
add_to_index none a d = d
add_to_index (some i) a d = put i a d

-- {a.node_id: a for a in assignments if a.node_id is not None}, added to an index
unfoldable pub index_assignments :
    List RoleAssignment → Dict NodeId RoleAssignment → Dict NodeId RoleAssignment
index_assignments [] d = d
index_assignments (a ∷ l) d = index_assignments l (add_to_index a.node_id a d)

-- `_prune_capability_grants` on one grant: the subject is an active Subcoordinator and the target
-- an active Worker.
abbrev pub may_subject : Option RoleAssignment → Bool
may_subject none = false
may_subject (some a) = not a.revoked && a.roles.subcoordinator

abbrev pub may_target : Option RoleAssignment → Bool
may_target none = false
may_target (some a) = not a.revoked && a.roles.worker

-- `a.node_id == assignment.node_id` chooses what is replaced.
unfoldable pub replace_assignment : RoleAssignment → List RoleAssignment → List RoleAssignment
replace_assignment new = map (λ a. if a.node_id == new.node_id then new else a)

-- `a.revoked or a.paused` where `a` may be missing
abbrev pub is_inactive : Option RoleAssignment → Bool
is_inactive none = true
is_inactive (some a) = a.revoked || a.paused

-- `current is None or current.revoked`
abbrev pub require_active : Option RoleAssignment → Result RoleAssignment
require_active none = err (role_authorization_error "unknown or revoked node")
require_active (some a) =
    if a.revoked then err (role_authorization_error "unknown or revoked node") else ok a

abbrev not_self : NodeId → NodeId → Result (Unit {0})
not_self target actor =
    raise_if (target == actor)
      (role_authorization_error "the active Coordinator cannot target itself")

module _ {F : Type 0} where
  abbrev pub grant_key : CapabilityGrant F → NodeId × NodeId
  grant_key g = (g.subject, g.target)

  unfoldable pub prune_capability_grants :
      List RoleAssignment → List (CapabilityGrant F) → List (CapabilityGrant F)
  prune_capability_grants l grants =
      let by_id = index_assignments l [] in
      filter (λ g. may_subject (lookup g.subject by_id) && may_target (lookup g.target by_id))
        grants

  unfoldable pub init_role_state : RoleState F → Result (RoleState F)
  init_role_state s = do
    let bound = filter is_bound s.assignments
    raise_if (not (distinct (map (λ a. a.node_id) bound)))
        (value_error "invalid or duplicate role assignment")
    raise_if (ltb 1 (count is_active_coordinator bound))
        (value_error "only one active Coordinator is allowed")
    raise_if (ltb 1 (count is_active_subcoordinator bound))
        (value_error "only one active Subcoordinator is allowed")
    raise_if (not (distinct (map grant_key s.capability_grants)))
        (value_error "duplicate capability grant")
    ok s

  unfoldable pub assignment_for : RoleState F → NodeId → Option RoleAssignment
  assignment_for s n = lookup n (index_assignments s.assignments [])

  unfoldable pub active_coordinator : RoleState F → Option RoleAssignment
  active_coordinator s = find? is_active_coordinator s.assignments

  unfoldable pub index_grants :
      List (CapabilityGrant F)
      → Dict (NodeId × NodeId) (CapabilityGrant F)
      → Dict (NodeId × NodeId) (CapabilityGrant F)
  index_grants [] d = d
  index_grants (g ∷ gs) d = index_grants gs (put (grant_key g) g d)

  -- `self.epoch is not None and self.epoch.coordinator_id != actor_id`
  abbrev pub other_epoch : Option (CoordinatorEpoch F) → NodeId → Bool
  other_epoch none n = false
  other_epoch (some e) n = not (e.coordinator_id == n)

  abbrev pub may_control : RoleState F → NodeId → Option RoleAssignment → Bool
  may_control s n none = false
  may_control s n (some a) =
      not (a.revoked || a.paused || not a.roles.coordinator || other_epoch s.epoch n)

  -- `_control`: the identity that the actor claims must have the authority in this state.
  unfoldable pub control : RoleState F → RoleAssignment → Result NodeId
  control s actor = elim actor.node_id [
    | none ↦ err (role_authorization_error "only an active Coordinator may control peers")
    | some n ↦
        if may_control s n (assignment_for s n)
        then ok n
        else err (role_authorization_error "only an active Coordinator may control peers")
  ]

  -- `_replace`
  unfoldable pub replace : RoleState F → RoleAssignment → Result (RoleState F)
  replace s a = init_role_state (record s { assignments = replace_assignment a s.assignments })

  unfoldable pub pause : RoleState F → RoleAssignment → NodeId → Result (RoleState F)
  pause s actor target = do
    actor_id ← control s actor
    not_self target actor_id
    current ← require_active (assignment_for s target)
    paused ← init_assignment (record current { paused = true })
    replace s paused

  unfoldable pub resume : RoleState F → RoleAssignment → NodeId → Result (RoleState F)
  resume s actor target = do
    control s actor
    current ← require_active (assignment_for s target)
    resumed ← init_assignment (record current { paused = false })
    replace s resumed

  unfoldable pub revoke : RoleState F → RoleAssignment → NodeId → Result (RoleState F)
  revoke s actor target = do
    actor_id ← control s actor
    not_self target actor_id
    current ← require_active (assignment_for s target)
    gone ←
        init_assignment (record current { revoked = true; paused = false; has_active_job = false })
    updated ← replace s gone
    init_role_state (record updated {
      capability_grants =
          filter (λ g. not (g.subject == target || g.target == target)) updated.capability_grants;
    })

  -- `clear_revocation`, at what it finds for the target
  abbrev pub cleared : RoleState F → NodeId → Option RoleAssignment → Result (RoleState F)
  cleared s target none = ok s
  cleared s target (some a) =
      if not a.revoked
      then ok s
      else init_role_state
          (record s { assignments = filter (λ b. not (b.node_id == some target)) s.assignments })

  unfoldable pub clear_revocation : RoleState F → NodeId → Result (RoleState F)
  clear_revocation s target = cleared s target (assignment_for s target)
