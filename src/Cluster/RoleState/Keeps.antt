-- ===== src/Cluster/RoleState/Keeps.antt =====
-- The invariant under `pause` and `resume` of src/expra_connect/cluster/roles.py.
use expra_connect.Prelude.{
  ◌≡◌, sym, ◌∙◌, string_eq, option_eq, pair_eq, ◌==◌, Bool, true, false, Option, none, some, List,
  filter, All-find?, All-map_with, All-filter_with, distinct-map-filter, arith, Bool-cases,
  Option-cases, inl, inr, ok, Error, role_authorization_error, Ensures, bind-Ensures,
  raise_if-Ensures, find?_holds, any_of_find?, option_beq_iff, ◌>>=◌,
}
use text.Mathlib.TextEquality.{eq_iff}
use expra_connect.Identity.{NodeId}
use expra_connect.Cluster.Models.{RoleAssignment, CapabilityGrant, init_assignment}
use expra_connect.Cluster.RoleState.{
  RoleState, is_active_coordinator, is_active_subcoordinator, grant_key, assignment_for,
  may_subject, may_target, replace, replace_assignment, control, may_control, require_active, pause,
  resume,
}
use expra_connect.Cluster.RoleState.Lookup.{
  find_id, has_id, ids-replace, find_id-replace, count-replace, All-replace,
}
use expra_connect.Cluster.RoleState.Valid.{
  IsWellFormed, IsLive, IsValid, init_assignment_same, init_role_state_ok, assignment_for-eq,
}

-- The only exception of an operation on a valid state.
abbrev pub IsRefusal : Error → Type 0
IsRefusal (role_authorization_error m) = Unit
IsRefusal _ = ⊥

pub find_id-node_id :
    (n : NodeId) (l : List RoleAssignment) (a : RoleAssignment)
    → find_id n l ≡ some a
    → a.node_id ≡ some n
find_id-node_id n l a e = (option_beq_iff a.node_id (some n)).0 (find?_holds (has_id n) l a e)

pub require_active-Ensures :
    (o : Option RoleAssignment)
    → Ensures IsRefusal (λ a. (o ≡ some a) × (a.revoked ≡ false)) (require_active o)
require_active-Ensures none = tt
require_active-Ensures (some a) = elim (Bool-cases a.revoked) [
  | inl t ↦ ground arith
  | inr f ↦ ground arith
]

module _ {F : Type 0} where
  pub control-Ensures :
      (s : RoleState F) (actor : RoleAssignment)
      → Ensures IsRefusal (λ n. may_control s n (assignment_for s n) ≡ true) (control s actor)
  unfolding control
  control-Ensures s actor = elim (Option-cases actor.node_id) [
    | inl e ↦ ground arith
    | inr (n, e) ↦ elim (Bool-cases (may_control s n (assignment_for s n))) [
      | inl t ↦ ground arith
      | inr f ↦ ground arith
    ]
  ]

  IsLive-replace :
      (m : NodeId) (cur x : RoleAssignment) (l : List RoleAssignment) (g : CapabilityGrant F)
      → find_id m l ≡ some cur
      → x.node_id ≡ some m
      → (may_subject (some cur) ≡ true → may_subject (some x) ≡ true)
      → (may_target (some cur) ≡ true → may_target (some x) ≡ true)
      → IsLive l g
      → IsLive (replace_assignment x l) g
  IsLive-replace m cur x l g f e hs ht live = ground (
    arith,
    find_id-replace g.subject m x l e,
    find_id-replace g.target m x l e,
    eq_iff m g.subject,
    eq_iff m g.target,
    any_of_find? (has_id m) l cur f,
  )

  -- A replacement that adds no role keeps all but, perhaps, the liveness of the grants.
  module _ (s : RoleState F) (m : NodeId) (cur x : RoleAssignment) (v : IsValid s)
      (at_m : find_id m s.assignments ≡ some cur) (same_id : x.node_id ≡ some m)
      (wf : IsWellFormed x)
      (coord : is_active_coordinator x ≡ true → is_active_coordinator cur ≡ true)
      (sub : is_active_subcoordinator x ≡ true → is_active_subcoordinator cur ≡ true) where
    pub replace_ok :
        replace s x ≡ ok (record s { assignments = replace_assignment x s.assignments })
    unfolding replace
    replace_ok =
        init_role_state_ok (record s { assignments = replace_assignment x s.assignments })
          (rw ids-replace v.ids_distinct)
          (ground (
            arith,
            count-replace is_active_coordinator m cur x s.assignments v.ids_distinct at_m same_id,
            v.one_coordinator,
          ))
          (ground (
            arith,
            count-replace is_active_subcoordinator m cur x s.assignments v.ids_distinct at_m
                same_id,
            v.one_subcoordinator,
          ))
          v.keys_distinct

    -- The same, with the grants that a filter keeps, if those stay live.
    pub replaced-IsValid :
        (q : CapabilityGrant F → Bool)
        → ((g : CapabilityGrant F)
            → IsLive s.assignments g
            → q g ≡ true
            → IsLive (replace_assignment x s.assignments) g)
        → IsValid (record s {
          assignments = replace_assignment x s.assignments;
          capability_grants = filter q s.capability_grants;
        })
    replaced-IsValid q live = record {
      well_formed = All-replace IsWellFormed x s.assignments v.well_formed wf;
      ids_distinct = rw ids-replace v.ids_distinct;
      one_coordinator = ground (
        arith,
        count-replace is_active_coordinator m cur x s.assignments v.ids_distinct at_m same_id,
        v.one_coordinator,
      );
      one_subcoordinator = ground (
        arith,
        count-replace is_active_subcoordinator m cur x s.assignments v.ids_distinct at_m same_id,
        v.one_subcoordinator,
      );
      keys_distinct = distinct-map-filter grant_key q s.capability_grants v.keys_distinct;
      grants_live =
          All-filter_with (IsLive s.assignments) (IsLive (replace_assignment x s.assignments)) q
            s.capability_grants live v.grants_live;
    }

    init_ok : init_assignment x ≡ ok x
    init_ok = init_assignment_same x wf

    -- ... and where the replacement keeps the standing of the node, all grants stay.
    pub replace-Ensures :
        (E : Error → Type 0)
        → (may_subject (some cur) ≡ true → may_subject (some x) ≡ true)
        → (may_target (some cur) ≡ true → may_target (some x) ≡ true)
        → Ensures E IsValid (init_assignment x >>= replace s)
    replace-Ensures E hs ht = rw init_ok (
        rw replace_ok (record {
          well_formed = All-replace IsWellFormed x s.assignments v.well_formed wf;
          ids_distinct = rw ids-replace v.ids_distinct;
          one_coordinator = ground (
            arith,
            count-replace is_active_coordinator m cur x s.assignments v.ids_distinct at_m same_id,
            v.one_coordinator,
          );
          one_subcoordinator = ground (
            arith,
            count-replace is_active_subcoordinator m cur x s.assignments v.ids_distinct at_m
                same_id,
            v.one_subcoordinator,
          );
          keys_distinct = v.keys_distinct;
          grants_live =
              All-map_with (IsLive s.assignments) (IsLive (replace_assignment x s.assignments))
                s.capability_grants (λ g. IsLive-replace m cur x s.assignments g at_m same_id hs ht)
                v.grants_live;
        }))

module _ {F : Type 0} (s : RoleState F) (v : IsValid s) where
  -- the current assignment of a node that an operation has found
  pub current_facts :
      (n : NodeId) (a : RoleAssignment)
      → assignment_for s n ≡ some a
      → (find_id n s.assignments ≡ some a) × IsWellFormed a × (a.node_id ≡ some n)
  current_facts n a e =
      let found = sym (assignment_for-eq s n v) ∙ e in
      (
        found,
        All-find? IsWellFormed (has_id n) s.assignments a v.well_formed found,
        find_id-node_id n s.assignments a found,
      )

  -- On a valid role state, `pause` gives a valid state or raises a RoleAuthorizationError.
  pub pause-Keeps :
      (actor : RoleAssignment) (target : NodeId) → Ensures IsRefusal IsValid (pause s actor target)
  unfolding pause
  pause-Keeps actor target =
      bind-Ensures IsRefusal _ IsValid (control s actor) _ (control-Ensures s actor) λ actor_id _ _.
        raise_if-Ensures IsRefusal IsValid (target == actor_id) _ _ tt λ _.
          bind-Ensures IsRefusal _ IsValid (require_active (assignment_for s target)) _
            (require_active-Ensures (assignment_for s target))
            λ a _ known.
              let (found, wf, at_target) = current_facts target a known.0 in
              replace-Ensures s target a (record a { paused = true }) v found at_target
                (ground arith) (ground arith) (ground arith) IsRefusal (ground arith) (ground arith)

  -- On a valid role state, `resume` gives a valid state or raises a RoleAuthorizationError.
  pub resume-Keeps :
      (actor : RoleAssignment) (target : NodeId) → Ensures IsRefusal IsValid (resume s actor target)
  unfolding resume
  resume-Keeps actor target =
      bind-Ensures IsRefusal _ IsValid (control s actor) _ (control-Ensures s actor) λ actor_id _ _.
        bind-Ensures IsRefusal _ IsValid (require_active (assignment_for s target)) _
          (require_active-Ensures (assignment_for s target))
          λ a _ known.
            let (found, wf, at_target) = current_facts target a known.0 in
            replace-Ensures s target a (record a { paused = false }) v found at_target
              (ground arith) (ground arith) (ground arith) IsRefusal (ground arith) (ground arith)
