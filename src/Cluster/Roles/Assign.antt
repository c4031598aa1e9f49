-- ===== src/Cluster/Roles/Assign.antt =====
-- The invariant under `assign` of src/expra_connect/cluster/roles.py.
use expra_connect.Prelude.{
  ◌≤◌, ◌≡◌, refl, ap, sym, ◌∙◌, string_eq, option_eq, pair_eq, ◌==◌, ◌||◌, ◌&&◌, true, false, not,
  Option, none, some, List, [], ◌∷◌, ◌++◌, map, if◌then◌else◌, any, count, distinct, contains, All,
  All-append, count-append, arith, inl, inr, Result, ok, err, ◌>>=◌, Ensures, bind-Ensures,
  raise_if-Ensures, find?-none, Floats, option_beq_iff,
}
use expra_connect.Identity.{NodeId}
use expra_connect.Cluster.Models.{RoleAssignment, RoleSet, RoleChange, init_role_change}
use expra_connect.Cluster.RoleState.{
  RoleState, is_bound, is_active_coordinator, is_active_subcoordinator, init_role_state,
  assignment_for, prune_capability_grants, replace_assignment, control,
}
use expra_connect.Cluster.RoleState.Lookup.{
  ids, find_id, has_id, contains-ids, replace_absent, ids-replace, count-replace, All-replace,
}
use expra_connect.Cluster.RoleState.Valid.{
  IsWellFormed, IsValid, init_role_state-Keeps, assignment_for-eq,
}
use expra_connect.Cluster.RoleState.Keeps.{control-Ensures}
use expra_connect.Cluster.Roles.Keeps.{
  IsAssignError, weaken, prune-IsLive, prune-distinct, new_assignment-Ensures, count_of_others,
  count_of_none,
}
use expra_connect.Cluster.Roles.{new_assignment, place, is_other_subcoordinator, assign, revoked_of}

-- What `assign` gives the target.
abbrev IsAssigned : NodeId → RoleSet → RoleAssignment → Type 0
IsAssigned target roles a =
    IsWellFormed a
    × (a.node_id ≡ some target)
    × (a.revoked ≡ false)
    × (a.roles.coordinator ≡ false)
    × (a.roles.subcoordinator ≡ roles.subcoordinator)

-- the test of `assign` against a second Subcoordinator
abbrev NoRival : NodeId → RoleSet → List RoleAssignment → Type 0
NoRival target roles l = (roles.subcoordinator && any (is_other_subcoordinator target) l) ≡ false

-- The checks of the constructor, and that each assignment is well formed.
record IsPlaced (l : List RoleAssignment) : Type 0 where
  well_formed : All IsWellFormed l
  ids_distinct : distinct (ids l) ≡ true
  one_coordinator : count is_active_coordinator l ≤ 1
  one_subcoordinator : count is_active_subcoordinator l ≤ 1

place_known :
    (x : RoleAssignment) (target : NodeId) (cur : RoleAssignment) (l : List RoleAssignment)
    → x.node_id ≡ some target
    → place x target (some cur) l ≡ replace_assignment x l
unfolding replace_assignment
place_known x target cur l e = ap (λ o. map (λ a. if a.node_id == o then x else a) l) (sym e)

place_new :
    (x : RoleAssignment) (target : NodeId) (l : List RoleAssignment)
    → x.node_id ≡ some target
    → any (has_id target) l ≡ false
    → place x target none l ≡ l ++ x ∷ []
unfolding replace_assignment
place_new x target l e h =
    ap (λ o. map (λ a. if a.node_id == o then x else a) l ++ x ∷ []) (sym e)
    ∙ ap (λ k. k ++ x ∷ []) (replace_absent target x l e h)

contains-ids-append_one :
    (o : Option NodeId) (x : RoleAssignment) (l : List RoleAssignment)
    → is_bound x ≡ true
    → contains o (ids (l ++ x ∷ [])) ≡ (contains o (ids l) || x.node_id == o)
contains-ids-append_one o x [] b = ground arith
contains-ids-append_one o x (a ∷ l) b = ground (arith, contains-ids-append_one o x l b)

ids-append_one :
    (x : RoleAssignment) (l : List RoleAssignment)
    → is_bound x ≡ true
    → contains x.node_id (ids l) ≡ false
    → distinct (ids l) ≡ true
    → distinct (ids (l ++ x ∷ [])) ≡ true
ids-append_one x [] b h d = ground arith
ids-append_one x (a ∷ l) b h d = ground (
  arith,
  ids-append_one x l b,
  contains-ids-append_one a.node_id x l b,
  option_beq_iff a.node_id x.node_id,
  option_beq_iff x.node_id a.node_id,
)

module _ {F : Type 0} (s : RoleState F) (v : IsValid s) where
  placed :
      (target : NodeId) (roles : RoleSet) (x : RoleAssignment) (o : Option RoleAssignment)
      → find_id target s.assignments ≡ o
      → IsAssigned target roles x
      → NoRival target roles s.assignments
      → IsPlaced (place x target o s.assignments)
  placed target roles x (some cur) e (wf, at_target, active, no_coord, sub) rival =
      rw (place_known x target cur s.assignments at_target) (record {
        well_formed = All-replace IsWellFormed x s.assignments v.well_formed wf;
        ids_distinct = rw ids-replace v.ids_distinct;
        one_coordinator = ground (
          arith,
          count-replace is_active_coordinator target cur x s.assignments v.ids_distinct e at_target,
          v.one_coordinator,
        );
        one_subcoordinator = ground (
          arith,
          count-replace is_active_subcoordinator target cur x s.assignments v.ids_distinct e
              at_target,
          v.one_subcoordinator,
          count_of_others target cur s.assignments,
        );
      })
  placed target roles x none e (wf, at_target, active, no_coord, sub) rival =
      let absent = find?-none (has_id target) s.assignments e in
      rw (place_new x target s.assignments at_target absent) (record {
        well_formed = All-append IsWellFormed s.assignments (x ∷ []) v.well_formed (wf, tt);
        ids_distinct =
            ids-append_one x s.assignments (ground arith)
              (rw at_target (contains-ids target s.assignments ∙ absent)) v.ids_distinct;
        one_coordinator =
            ground
              (arith, count-append is_active_coordinator s.assignments (x ∷ []), v.one_coordinator);
        one_subcoordinator = ground (
          arith,
          count-append is_active_subcoordinator s.assignments (x ∷ []),
          v.one_subcoordinator,
          count_of_none target s.assignments,
        );
      })

abbrev pub FirstIsValid : {F : Type 0} → RoleState F × RoleChange F → Type 0
FirstIsValid r = IsValid r.0

-- the state in which `assign` has placed an assignment
abbrev with_assigned : {F : Type 0} → RoleState F → NodeId → RoleAssignment → RoleState F
with_assigned s target x = record s {
  assignments = place x target (assignment_for s target) s.assignments;
  capability_grants =
      prune_capability_grants (place x target (assignment_for s target) s.assignments)
        s.capability_grants;
}

raises_nothing :
    {A : Type 0} (Q : A → Type 0) (m : Result A) → Ensures (λ _. ⊥) Q m → Ensures IsAssignError Q m
raises_nothing Q (ok a) h = h
raises_nothing Q (err e) h = absurd h

module _ {F : Type 0} ⦃fl : Floats F⦄ (s : RoleState F) (v : IsValid s) where
  init_role_change-Ensures :
      (c : RoleChange F) → Ensures IsAssignError (λ d. d ≡ c) (init_role_change c)
  unfolding init_role_change
  init_role_change-Ensures c =
      raise_if-Ensures IsAssignError (λ d. d ≡ c) (not (fl.is_finite c.changed_at)) _ (ok c)
        (inr refl) λ _. refl

  assigned-IsValid :
      (target : NodeId) (roles : RoleSet) (x : RoleAssignment)
      → IsAssigned target roles x
      → NoRival target roles s.assignments
      → IsValid (with_assigned s target x)
  assigned-IsValid target roles x is rival =
      let l : List RoleAssignment = place x target (assignment_for s target) s.assignments in
      let p =
        placed s v target roles x (assignment_for s target) (sym (assignment_for-eq s target v)) is
          rival in
      record {
        well_formed = p.well_formed;
        ids_distinct = p.ids_distinct;
        one_coordinator = p.one_coordinator;
        one_subcoordinator = p.one_subcoordinator;
        keys_distinct = prune-distinct l s.capability_grants v.keys_distinct;
        grants_live = prune-IsLive l s.capability_grants p.ids_distinct;
      }

  assign_tail :
      (target : NodeId) (roles : RoleSet) (now : F) (actor_id : NodeId)
      → roles.coordinator ≡ false
      → NoRival target roles s.assignments
      → Ensures IsAssignError FirstIsValid (do
        assigned ← new_assignment roles target (assignment_for s target)
        updated ← init_role_state (with_assigned s target assigned)
        change ← init_role_change (record {
          node_id = target;
          assignment = assigned;
          changed_at = now;
          actor_id = actor_id;
        })
        ok (updated, change))
  assign_tail target roles now actor_id no_coord rival =
      bind-Ensures IsAssignError (IsAssigned target roles) FirstIsValid
        (new_assignment roles target (assignment_for s target)) _
        (raises_nothing (IsAssigned target roles) _
          (new_assignment-Ensures roles target (assignment_for s target) no_coord))
        λ x _ is.
          bind-Ensures IsAssignError IsValid FirstIsValid
            (init_role_state (with_assigned s target x)) _
            (init_role_state-Keeps IsAssignError _ (assigned-IsValid target roles x is rival))
            λ s' _ v'.
              let change : RoleChange F = record {
                node_id = target;
                assignment = x;
                changed_at = now;
                actor_id = actor_id;
              } in
              bind-Ensures IsAssignError (λ d. d ≡ change) FirstIsValid (init_role_change change) _
                (init_role_change-Ensures change) λ c _ _. v'

  -- On a valid role state, `assign` gives a valid state, or raises a RoleAuthorizationError or the
  -- ValueError of an invalid change time.
  pub assign-Keeps :
      (actor : RoleAssignment) (target : NodeId) (roles : RoleSet) (now : F)
      → Ensures IsAssignError (λ r. IsValid r.0) (assign s actor target roles now)
  unfolding assign
  assign-Keeps actor target roles now =
      bind-Ensures IsAssignError _ (FirstIsValid {F = F}) (control s actor) _
        (weaken IsAssignError _ (control s actor) (λ e. inl) (control-Ensures s actor))
        λ actor_id _ _.
          raise_if-Ensures IsAssignError FirstIsValid (target == actor_id) _ _ (inl tt) λ _.
            raise_if-Ensures IsAssignError FirstIsValid roles.coordinator _ _ (inl tt) λ no_coord.
              raise_if-Ensures IsAssignError FirstIsValid (revoked_of (assignment_for s target)) _ _
                (inl tt)
                λ _.
                  raise_if-Ensures IsAssignError FirstIsValid
                    (roles.subcoordinator && any (is_other_subcoordinator target) s.assignments) _ _
                    (inl tt) λ rival. assign_tail target roles now actor_id no_coord rival
