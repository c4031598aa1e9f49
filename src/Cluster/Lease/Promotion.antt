-- ===== src/Cluster/Lease/Promotion.antt =====
-- The assignments that `promote_subcoordinator` of src/expra_connect/cluster/roles.py makes.
use expra_connect.Prelude.{
  ◌≡◌, refl, string_eq, option_eq, pair_eq, ℕ_eq, ◌==◌, true, false, none, some, List, [], ◌∷◌, map,
  if◌then◌else◌, lookup, any, count, distinct, All, arith, Bool-cases, inl, inr, ok, option_beq_iff,
}
use text.Mathlib.TextEquality.{eq_iff}
use expra_connect.Identity.{NodeId}
use expra_connect.Cluster.Models.{
  RoleAssignment, CapabilityGrant, assignment, coordinator_roles, worker_only,
}
use expra_connect.Cluster.RoleState.{
  is_active_coordinator, is_active_subcoordinator, may_subject, prune_capability_grants,
  index_assignments,
}
use expra_connect.Cluster.RoleState.Lookup.{
  ids, find_id, has_id, lookup-index, head_unique, distinct_tail,
}
use expra_connect.Cluster.RoleState.Valid.{IsWellFormed, init_assignment_same}
use expra_connect.Cluster.Lease.{demote_others}

abbrev pub promoted : NodeId → RoleAssignment
promoted sub = assignment coordinator_roles (some sub)

-- one assignment after a promotion
abbrev pub demote : NodeId → RoleAssignment → RoleAssignment
demote sub a = if a.node_id == some sub then promoted sub else record a { roles = worker_only }

abbrev pub demoted : NodeId → List RoleAssignment → List RoleAssignment
demoted sub = map (demote sub)

pub demote_others_ok :
    (sub : NodeId) (l : List RoleAssignment)
    → All IsWellFormed l
    → demote_others sub (promoted sub) l ≡ ok (demoted sub l)
unfolding demote_others
demote_others_ok sub [] h = refl
demote_others_ok sub (a ∷ l) h = elim (Bool-cases (a.node_id == some sub)) [
  | inl t ↦ rw t (rw (demote_others_ok sub l h.1) refl)
  | inr f ↦ rw f (
      rw (init_assignment_same (record a { roles = worker_only }) (ground (arith, h.0)))
        (rw (demote_others_ok sub l h.1) refl))
]

pub demoted-All :
    (sub : NodeId) (l : List RoleAssignment) → All IsWellFormed l → All IsWellFormed (demoted sub l)
demoted-All sub [] h = tt
demoted-All sub (a ∷ l) h = (ground (arith, h.0), demoted-All sub l h.1)

pub ids-demoted : (sub : NodeId) (l : List RoleAssignment) → ids (demoted sub l) ≡ ids l
ids-demoted sub [] = refl
ids-demoted sub (a ∷ l) = ground (arith, ids-demoted sub l, option_beq_iff a.node_id (some sub))

pub find_id-demoted :
    (n sub : NodeId) (l : List RoleAssignment)
    → find_id n (demoted sub l) ≡ elim (find_id n l) [ none ↦ none | some a ↦ some (demote sub a) ]
find_id-demoted n sub [] = refl
find_id-demoted n sub (a ∷ l) =
    ground (arith, find_id-demoted n sub l, option_beq_iff a.node_id (some sub), eq_iff sub n)

no_coordinator :
    (sub : NodeId) (l : List RoleAssignment)
    → any (has_id sub) l ≡ false
    → count is_active_coordinator (demoted sub l) ≡ 0
no_coordinator sub [] h = refl
no_coordinator sub (a ∷ l) h = ground (arith, no_coordinator sub l)

-- The Subcoordinator that is promoted becomes the only Coordinator.
pub one_coordinator :
    (sub : NodeId) (l : List RoleAssignment)
    → distinct (ids l) ≡ true
    → any (has_id sub) l ≡ true
    → count is_active_coordinator (demoted sub l) ≡ 1
one_coordinator sub [] d h = absurd (ground arith)
one_coordinator sub (a ∷ l) d h = ground (
  arith,
  one_coordinator sub l (distinct_tail a l d),
  no_coordinator sub l,
  head_unique sub a l d,
)

pub no_subcoordinator :
    (sub : NodeId) (l : List RoleAssignment) → count is_active_subcoordinator (demoted sub l) ≡ 0
no_subcoordinator sub [] = refl
no_subcoordinator sub (a ∷ l) = ground (arith, no_subcoordinator sub l)

no_subject :
    (n sub : NodeId) (l : List RoleAssignment)
    → distinct (ids l) ≡ true
    → may_subject (lookup n (index_assignments (demoted sub l) [])) ≡ false
unfolding lookup
no_subject n sub l d =
    ground (arith, lookup-index n (demoted sub l) [], ids-demoted sub l, find_id-demoted n sub l)

pub prune-demoted :
    {F : Type 0} (sub : NodeId) (l : List RoleAssignment) (gs : List (CapabilityGrant F))
    → distinct (ids l) ≡ true
    → prune_capability_grants (demoted sub l) gs ≡ []
unfolding prune_capability_grants
prune-demoted sub l [] d = refl
prune-demoted sub l (g ∷ gs) d =
    ground (arith, prune-demoted sub l gs d, no_subject g.subject sub l d)
