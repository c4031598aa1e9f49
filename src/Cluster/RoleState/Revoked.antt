-- ===== src/Cluster/RoleState/Revoked.antt =====
-- The effect of `revoke` of src/expra_connect/cluster/roles.py.
use expra_connect.Prelude.{
  ◌≡◌, ◌≢◌, refl, string_eq, option_eq, pair_eq, true, false, none, some, List, [], ◌∷◌, filter,
  any_of_find?, arith, Bool-cases, Option-cases, inl, inr, ok, All,
}
use text.Mathlib.TextEquality.{eq_iff}
use expra_connect.Identity.{NodeId}
use expra_connect.Cluster.Models.{RoleAssignment, CapabilityGrant, init_assignment}
use expra_connect.Cluster.RoleState.{
  RoleState, assignment_for, replace, replace_assignment, revoke, init_role_state,
}
use expra_connect.Cluster.RoleState.Lookup.{find_id, has_id, find_id-replace}
use expra_connect.Cluster.RoleState.Valid.{init_assignment_same, IsValid}
use expra_connect.Cluster.RoleState.Keeps.{current_facts}
use expra_connect.Cluster.RoleState.Removal.{avoids}

abbrev gone : RoleAssignment → RoleAssignment
gone a = record a { revoked = true; paused = false; has_active_job = false }

module _ {F : Type 0} where
  revoke_result :
      (s t : RoleState F) (actor : RoleAssignment) (target : NodeId) (a : RoleAssignment)
      → assignment_for s target ≡ some a
      → init_assignment (gone a) ≡ ok (gone a)
      → revoke s actor target ≡ ok t
      → t ≡ record s {
        assignments = replace_assignment (gone a) s.assignments;
        capability_grants = filter (avoids target) s.capability_grants;
      }
  unfolding revoke replace init_role_state
  revoke_result s t actor target a e i h = ground arith

  unknown_refused :
      (s t : RoleState F) (actor : RoleAssignment) (target : NodeId)
      → assignment_for s target ≡ none
      → ¬ (revoke s actor target ≡ ok t)
  unfolding revoke
  unknown_refused s t actor target e h = ground arith

  All-avoids :
      (n : NodeId) (gs : List (CapabilityGrant F))
      → All (λ g. avoids n g ≡ true) (filter (avoids n) gs)
  All-avoids n [] = tt
  All-avoids n (g ∷ gs) = elim (Bool-cases (avoids n g)) [
    | inl t ↦ rw t (t, All-avoids n gs)
    | inr f ↦ rw f (All-avoids n gs)
  ]

  -- The target is revoked, the others are as they were, and no grant names the target.
  pub record IsRevoked (s t : RoleState F) (target : NodeId) : Type 0 where
    pub before : RoleAssignment
    pub after : RoleAssignment
    pub was_known : find_id target s.assignments ≡ some before
    pub is_known : find_id target t.assignments ≡ some after
    pub now_revoked : after.revoked ≡ true
    pub no_job : after.has_active_job ≡ false
    pub others : (n : NodeId) → target ≢ n → find_id n t.assignments ≡ find_id n s.assignments
    pub no_grant : All (λ g. avoids target g ≡ true) t.capability_grants

  -- When `revoke` succeeds on a valid role state, the target was known and is now revoked with no
  -- job, every other node has the assignment it had, and no grant names the target.
  pub revoke_effect :
      (s t : RoleState F) (actor : RoleAssignment) (target : NodeId)
      → IsValid s
      → revoke s actor target ≡ ok t
      → IsRevoked s t target
  revoke_effect s t actor target v h = elim (Option-cases (assignment_for s target)) [
    | inl e ↦ absurd (unknown_refused s t actor target e h)
    | inr (a, e) ↦
        let (found, wf, at_target) = current_facts s v target a e in
        let same =
          revoke_result s t actor target a e (init_assignment_same (gone a) (ground arith)) h in
        rw same (record {
          before = a;
          after = gone a;
          was_known = found;
          is_known = ground (
            arith,
            find_id-replace target target (gone a) s.assignments at_target,
            any_of_find? (has_id target) s.assignments a found,
            eq_iff target target,
          );
          now_revoked = refl;
          no_job = refl;
          others = λ n apart.
              ground
                (arith, find_id-replace n target (gone a) s.assignments at_target, eq_iff target n);
          no_grant = All-avoids target s.capability_grants;
        })
  ]
