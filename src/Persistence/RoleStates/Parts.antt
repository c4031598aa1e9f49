-- ===== src/Persistence/RoleStates/Parts.antt =====
-- The parts of a role state through the codec of src/expra_connect/cluster/state.py.
use expra_connect.Prelude.{
  ℕ, ◌≡◌, refl, subst, String, string_eq, ◌==◌, Bool, true, false, none, some, Result, ok, List, [],
  ◌∷◌, map, All, Floats, ℤ, arith,
}
use expra_connect.Identity.{NodeId, PermissionSet, init_node_id}
use expra_connect.Cluster.Models.{
  RoleAssignment, CoordinatorEpoch, CapabilityGrant, init_assignment, init_epoch, init_grant,
}
use expra_connect.Persistence.{float, get}
use expra_connect.Persistence.RoundTrip.{texts-text_items}
use expra_connect.Persistence.RoleStates.{
  role_texts, permission_texts, roles_of, permissions_of, assignment_to_dict, assignments_to_items,
  epoch_to_value, numbers_to_items, grant_to_dict, grants_to_items, each, assignment_from_dict,
  natural, finite_number, epoch_from_value, grant_from_dict,
}

roles_back :
    (a b c : Bool)
    → roles_of (role_texts (record { worker = a; coordinator = b; subcoordinator = c }))
      ≡ ok (record { worker = a; coordinator = b; subcoordinator = c })
unfolding roles_of role_texts
roles_back true true true = refl
roles_back true true false = refl
roles_back true false true = refl
roles_back true false false = refl
roles_back false true true = refl
roles_back false true false = refl
roles_back false false true = refl
roles_back false false false = refl

permissions_back :
    (a b c d e : Bool)
    → permissions_of (
        permission_texts (record {
          read_state = a;
          remote_management = b;
          process_termination = c;
          process_force_termination = d;
          cleanup = e;
        }))
      ≡ ok (record {
        read_state = a;
        remote_management = b;
        process_termination = c;
        process_force_termination = d;
        cleanup = e;
      })
unfolding permissions_of permission_texts
permissions_back a b c d e = ground arith

all_permissions_back : (p : PermissionSet) → permissions_of (permission_texts p) ≡ ok p
all_permissions_back p =
    permissions_back p.read_state p.remote_management p.process_termination
      p.process_force_termination p.cleanup

pub numbers_back : (F : Type 0) (l : List ℕ) → each natural (numbers_to_items {F = F} l) ≡ ok l
unfolding each numbers_to_items
numbers_back F [] = refl
numbers_back F (n ∷ l) = rw (numbers_back F l) refl

-- what is restored of an assignment, which is left out if it has no node
abbrev pub stored_assignment : RoleAssignment → RoleAssignment
stored_assignment a = record a { has_active_job = false }

abbrev pub stored_assignments : List RoleAssignment → List RoleAssignment
stored_assignments [] = []
stored_assignments (a ∷ l) =
    let rest = stored_assignments l in
    elim a.node_id [ none ↦ rest | some n ↦ stored_assignment a ∷ rest ]

-- An assignment that the constructors accept again.
pub data IsStoredAssignment (a : RoleAssignment) : Type 0 where
  unbound : a.node_id ≡ none → IsStoredAssignment a
  bound :
      (n : NodeId)
      → a.node_id ≡ some n
      → init_node_id n ≡ ok n
      → init_assignment (stored_assignment a) ≡ ok (stored_assignment a)
      → IsStoredAssignment a

assignment_back :
    (F : Type 0) (a : RoleAssignment) (n : NodeId)
    → a.node_id ≡ some n
    → init_node_id n ≡ ok n
    → init_assignment (stored_assignment a) ≡ ok (stored_assignment a)
    → assignment_from_dict (assignment_to_dict {F = F} a n) ≡ ok (stored_assignment a)
unfolding assignment_from_dict assignment_to_dict get
assignment_back F a n e i accepted = rw (texts-text_items F (role_texts a.roles)) (
    rw (roles_back a.roles.worker a.roles.coordinator a.roles.subcoordinator) (
      rw i (
        subst
          (λ o.
            init_assignment (record a { node_id = o; has_active_job = false })
            ≡ ok (stored_assignment a))
          e accepted)))

pub assignments_back :
    (F : Type 0) (l : List RoleAssignment)
    → All IsStoredAssignment l
    → each assignment_from_dict (assignments_to_items {F = F} l) ≡ ok (stored_assignments l)
unfolding each assignments_to_items
assignments_back F [] h = refl
assignments_back F (a ∷ l) (unbound e, h) = rw e (assignments_back F l h)
assignments_back F (a ∷ l) (bound n e i accepted, h) =
    rw e (rw (assignment_back F a n e i accepted) (rw (assignments_back F l h) refl))

module _ {F : Type 0} ⦃fl : Floats F⦄ where
  -- the times are floats once they are restored
  abbrev pub stored_epoch : CoordinatorEpoch F → CoordinatorEpoch F
  stored_epoch e = record e {
    issued_at = fl.to_float e.issued_at;
    lease_expires_at = fl.to_float e.lease_expires_at;
  }

  abbrev pub stored_grant : CapabilityGrant F → CapabilityGrant F
  stored_grant g = record g {
    issued_at = fl.to_float g.issued_at;
    expires_at = fl.to_float g.expires_at;
  }

  pub record IsStoredEpoch (e : CoordinatorEpoch F) : Type 0 where
    pub valid_id : init_node_id e.coordinator_id ≡ ok e.coordinator_id
    pub has_token : (e.fencing_token == "") ≡ false
    pub finite_issued : fl.is_finite e.issued_at ≡ true
    pub finite_lease : fl.is_finite e.lease_expires_at ≡ true
    pub accepted : init_epoch (stored_epoch e) ≡ ok (stored_epoch e)

  pub record IsStoredGrant (g : CapabilityGrant F) : Type 0 where
    pub valid_subject : init_node_id g.subject ≡ ok g.subject
    pub valid_target : init_node_id g.target ≡ ok g.target
    pub finite_issued : fl.is_finite g.issued_at ≡ true
    pub finite_expiry : fl.is_finite g.expires_at ≡ true
    pub accepted : init_grant (stored_grant g) ≡ ok (stored_grant g)

module _ {F : Type 0} ⦃fl : Floats F⦄ (float_of : ℤ → Result F) where
  number_back :
      (t : F) (message : String)
      → fl.is_finite t ≡ true
      → finite_number float_of (some (float t)) message ≡ ok (fl.to_float t)
  unfolding finite_number
  number_back t message h = rw (fl.is_finite-to_float t) (rw h refl)

  pub epoch_back :
      (e : CoordinatorEpoch F)
      → IsStoredEpoch e
      → epoch_from_value float_of (some (epoch_to_value (some e))) ≡ ok (some (stored_epoch e))
  unfolding epoch_from_value epoch_to_value get
  epoch_back e s = rw s.has_token (
      rw s.valid_id (
        rw (number_back e.issued_at "epoch issued_at is malformed" s.finite_issued) (
          rw (number_back e.lease_expires_at "epoch lease_expires_at is malformed" s.finite_lease)
            (rw s.accepted refl))))

  grant_back :
      (g : CapabilityGrant F)
      → IsStoredGrant g
      → grant_from_dict float_of (grant_to_dict g) ≡ ok (stored_grant g)
  unfolding grant_from_dict grant_to_dict get
  grant_back g s = rw (texts-text_items F (permission_texts g.permissions)) (
      rw s.valid_subject (
        rw s.valid_target (
          rw (all_permissions_back g.permissions) (
            rw (number_back g.issued_at "grant issued_at is malformed" s.finite_issued) (
              rw (number_back g.expires_at "grant expires_at is malformed" s.finite_expiry)
                s.accepted)))))

  pub grants_back :
      (l : List (CapabilityGrant F))
      → All IsStoredGrant l
      → each (grant_from_dict float_of) (grants_to_items l) ≡ ok (map stored_grant l)
  unfolding each grants_to_items
  grants_back [] h = refl
  grants_back (g ∷ l) h = rw (grant_back g h.0) (rw (grants_back l h.1) refl)
