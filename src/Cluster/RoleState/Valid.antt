-- ===== src/Cluster/RoleState/Valid.antt =====
-- The invariant of a role state, and what the constructor's checks establish.
use expra_connect.Prelude.{
  Error, Ensures, ◌≤◌, ◌≡◌, refl, string_eq, option_eq, pair_eq, true, false, List, [], ◌∷◌, map,
  lookup, filter, count, distinct, All, arith, ok,
}
use expra_connect.Identity.{NodeId}
use expra_connect.Cluster.Models.{RoleAssignment, CapabilityGrant, init_assignment}
use expra_connect.Cluster.RoleState.{
  RoleState, is_bound, is_active_coordinator, is_active_subcoordinator, grant_key, init_role_state,
  assignment_for, may_subject, may_target,
}
use expra_connect.Cluster.RoleState.Lookup.{ids, find_id, lookup-index}

-- What the constructor of an assignment establishes.
pub record IsWellFormed (a : RoleAssignment) : Type 0 where
  pub coordinator_is_worker : a.roles.coordinator ≡ true → a.roles.worker ≡ true
  pub roles_exclude : a.roles.coordinator ≡ true → a.roles.subcoordinator ≡ false
  pub has_role : a.roles.worker ≡ false → a.roles.subcoordinator ≡ true
  pub states_exclude : a.revoked ≡ true → a.paused ≡ false

-- A grant from an active Subcoordinator to an active Worker.
module _ {F : Type 0} where
  abbrev pub IsLive : List RoleAssignment → CapabilityGrant F → Type 0
  IsLive l g = (may_subject (find_id g.subject l) ≡ true) × (may_target (find_id g.target l) ≡ true)

  pub record IsValid (s : RoleState F) : Type 0 where
    pub well_formed : All IsWellFormed s.assignments
    pub ids_distinct : distinct (ids s.assignments) ≡ true
    pub one_coordinator : count is_active_coordinator s.assignments ≤ 1
    pub one_subcoordinator : count is_active_subcoordinator s.assignments ≤ 1
    pub keys_distinct : distinct (map grant_key s.capability_grants) ≡ true
    pub grants_live : All (IsLive s.assignments) s.capability_grants

count-bound_coordinator :
    (l : List RoleAssignment)
    → count is_active_coordinator (filter is_bound l) ≡ count is_active_coordinator l
count-bound_coordinator [] = refl
count-bound_coordinator (a ∷ l) = ground (arith, count-bound_coordinator l)

count-bound_subcoordinator :
    (l : List RoleAssignment)
    → count is_active_subcoordinator (filter is_bound l) ≡ count is_active_subcoordinator l
count-bound_subcoordinator [] = refl
count-bound_subcoordinator (a ∷ l) = ground (arith, count-bound_subcoordinator l)

-- An accepted assignment is well formed, and only its roles may differ from what was given.
pub init_assignment-IsWellFormed :
    (a b : RoleAssignment) → init_assignment a ≡ ok b → IsWellFormed b
unfolding init_assignment
init_assignment-IsWellFormed a b h = ground arith

-- Changing no role of a well-formed assignment, the constructor gives it back.
pub init_assignment_same : (a : RoleAssignment) → IsWellFormed a → init_assignment a ≡ ok a
unfolding init_assignment
init_assignment_same a h = ground arith

module _ {F : Type 0} where
  -- The constructor accepts what meets its checks.
  pub init_role_state_ok :
      (s : RoleState F)
      → distinct (ids s.assignments) ≡ true
      → count is_active_coordinator s.assignments ≤ 1
      → count is_active_subcoordinator s.assignments ≤ 1
      → distinct (map grant_key s.capability_grants) ≡ true
      → init_role_state s ≡ ok s
  unfolding init_role_state
  init_role_state_ok s i c d k =
      ground
        (arith, count-bound_coordinator s.assignments, count-bound_subcoordinator s.assignments)

  pub assignment_for-eq :
      (s : RoleState F) (n : NodeId) → IsValid s → assignment_for s n ≡ find_id n s.assignments
  unfolding assignment_for lookup
  assignment_for-eq s n v = ground (arith, lookup-index n s.assignments [] v.ids_distinct)

  -- The constructor gives a valid state back.
  pub init_role_state-IsValid : (s : RoleState F) → IsValid s → init_role_state s ≡ ok s
  init_role_state-IsValid s v =
      init_role_state_ok s v.ids_distinct v.one_coordinator v.one_subcoordinator v.keys_distinct

  pub init_role_state-Keeps :
      (E : Error → Type 0) (s : RoleState F) → IsValid s → Ensures E IsValid (init_role_state s)
  init_role_state-Keeps E s v = rw (init_role_state-IsValid s v) v
