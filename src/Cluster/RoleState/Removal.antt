-- ===== src/Cluster/RoleState/Removal.antt =====
-- The invariant under `revoke` and `clear_revocation` of src/expra_connect/cluster/roles.py.
use expra_connect.Prelude.{
  ◌≡◌, ◌≢◌, refl, string_eq, option_eq, pair_eq, ◌==◌, ◌||◌, Bool, true, false, not, Option, none,
  some, List, [], ◌∷◌, filter, distinct, contains, All-map_with, All-filter, count-filter-le, arith,
  Bool-cases, inl, inr, Ensures, bind-Ensures, raise_if-Ensures, option_beq_iff, ◌>>=◌,
}
use text.Mathlib.TextEquality.{eq_iff}
use expra_connect.Identity.{NodeId}
use expra_connect.Cluster.Models.{RoleAssignment, CapabilityGrant, init_assignment}
use expra_connect.Cluster.RoleState.{
  RoleState, is_active_coordinator, is_active_subcoordinator, init_role_state, assignment_for,
  replace, replace_assignment, control, require_active, revoke, clear_revocation, cleared,
}
use expra_connect.Cluster.RoleState.Lookup.{ids, find_id, find_id-replace}
use expra_connect.Cluster.RoleState.Valid.{
  IsWellFormed, IsLive, IsValid, init_assignment_same, init_role_state-Keeps,
}
use expra_connect.Cluster.RoleState.Keeps.{
  IsRefusal, control-Ensures, require_active-Ensures, current_facts, replace_ok, replaced-IsValid,
}

-- `g` does not name `n`.
abbrev pub avoids : {F : Type 0} → NodeId → CapabilityGrant F → Bool
avoids n g = not (g.subject == n || g.target == n)

-- an assignment of another node
abbrev other_id : NodeId → RoleAssignment → Bool
other_id n b = not (b.node_id == some n)

find_id-filter :
    (n m : NodeId) (l : List RoleAssignment)
    → n ≢ m
    → find_id n (filter (other_id m) l) ≡ find_id n l
find_id-filter n m [] h = refl
find_id-filter n m (a ∷ l) h = ground (
  arith,
  find_id-filter n m l h,
  option_beq_iff a.node_id (some n),
  option_beq_iff a.node_id (some m),
)

contains-ids-filter :
    (o : Option NodeId) (q : RoleAssignment → Bool) (l : List RoleAssignment)
    → contains o (ids l) ≡ false
    → contains o (ids (filter q l)) ≡ false
contains-ids-filter o q [] h = refl
contains-ids-filter o q (a ∷ l) h = ground (arith, contains-ids-filter o q l)

distinct-ids-filter :
    (q : RoleAssignment → Bool) (l : List RoleAssignment)
    → distinct (ids l) ≡ true
    → distinct (ids (filter q l)) ≡ true
distinct-ids-filter q [] h = refl
distinct-ids-filter q (a ∷ l) h =
    ground (arith, distinct-ids-filter q l, contains-ids-filter a.node_id q l)

module _ {F : Type 0} where
  IsLive-avoids :
      (m : NodeId) (x : RoleAssignment) (l : List RoleAssignment) (g : CapabilityGrant F)
      → x.node_id ≡ some m
      → IsLive l g
      → avoids m g ≡ true
      → IsLive (replace_assignment x l) g
  IsLive-avoids m x l g e live q = ground (
    arith,
    find_id-replace g.subject m x l e,
    find_id-replace g.target m x l e,
    eq_iff m g.subject,
    eq_iff m g.target,
    eq_iff g.subject m,
    eq_iff g.target m,
  )

  -- A live grant does not name a revoked node, so it stays live without that node.
  IsLive-cleared :
      (m : NodeId) (a : RoleAssignment) (l : List RoleAssignment) (g : CapabilityGrant F)
      → find_id m l ≡ some a
      → a.revoked ≡ true
      → IsLive l g
      → IsLive (filter (other_id m) l) g
  IsLive-cleared m a l g found gone live =
      ground (arith, find_id-filter g.subject m l, find_id-filter g.target m l)

module _ {F : Type 0} (s : RoleState F) (v : IsValid s) where
  revoked_state :
      (target : NodeId) (a : RoleAssignment)
      → assignment_for s target ≡ some a
      → a.revoked ≡ false
      → let x = record a { revoked = true; paused = false; has_active_job = false } in
        Ensures IsRefusal IsValid (do
          gone ← init_assignment x
          updated ← replace s gone
          init_role_state (record updated {
            capability_grants = filter (avoids target) updated.capability_grants;
          }))
  revoked_state target a e active =
      let x : RoleAssignment = record a {
        revoked = true;
        paused = false;
        has_active_job = false;
      } in
      let (found, wf, at_target) = current_facts s v target a e in
      let valid =
        replaced-IsValid s target a x v found at_target (ground arith) (ground arith) (ground arith)
          (avoids target) (λ g. IsLive-avoids target x s.assignments g at_target) in
      rw (init_assignment_same x (ground arith)) (
        rw (replace_ok s target a x v found at_target (ground arith) (ground arith) (ground arith))
          (init_role_state-Keeps IsRefusal _ valid))

  -- On a valid role state, `revoke` gives a valid state or raises a RoleAuthorizationError.
  pub revoke-Keeps :
      (actor : RoleAssignment) (target : NodeId) → Ensures IsRefusal IsValid (revoke s actor target)
  unfolding revoke
  revoke-Keeps actor target =
      bind-Ensures IsRefusal _ IsValid (control s actor) _ (control-Ensures s actor) λ actor_id _ _.
        raise_if-Ensures IsRefusal IsValid (target == actor_id) _ _ tt λ _.
          bind-Ensures IsRefusal _ IsValid (require_active (assignment_for s target)) _
            (require_active-Ensures (assignment_for s target))
            λ a _ known. revoked_state target a known.0 known.1

  cleared-Keeps :
      (target : NodeId) (o : Option RoleAssignment)
      → assignment_for s target ≡ o
      → Ensures (λ _. ⊥) IsValid (cleared s target o)
  cleared-Keeps target none e = v
  cleared-Keeps target (some a) e = elim (Bool-cases a.revoked) [
    | inr active ↦ rw active v
    | inl gone ↦
        let found = (current_facts s v target a e).0 in
        let valid : IsValid (record s { assignments = filter (other_id target) s.assignments }) =
          record {
            well_formed = All-filter IsWellFormed (other_id target) s.assignments v.well_formed;
            ids_distinct = distinct-ids-filter (other_id target) s.assignments v.ids_distinct;
            one_coordinator = omega (
              arith,
              count-filter-le is_active_coordinator (other_id target) s.assignments,
              v.one_coordinator,
            );
            one_subcoordinator = omega (
              arith,
              count-filter-le is_active_subcoordinator (other_id target) s.assignments,
              v.one_subcoordinator,
            );
            keys_distinct = v.keys_distinct;
            grants_live =
                All-map_with (IsLive s.assignments)
                  (IsLive (filter (other_id target) s.assignments)) s.capability_grants
                  (λ g. IsLive-cleared target a s.assignments g found gone) v.grants_live;
          } in
        rw gone (init_role_state-Keeps (λ _. ⊥) _ valid)
  ]

  -- On a valid role state, `clear_revocation` never raises and gives a valid state.
  pub clear_revocation-Keeps :
      (target : NodeId) → Ensures (λ _. ⊥) IsValid (clear_revocation s target)
  unfolding clear_revocation
  clear_revocation-Keeps target = cleared-Keeps target (assignment_for s target) refl
