-- ===== src/Persistence/RoleStates.antt =====
-- The codec of role states of src/expra_connect/cluster/state.py, with `include_legacy_role` off.
pub mod Parts
pub mod Codec
use expra_connect.Prelude.{
  ℕ, String, string_eq, ◌==◌, Bool, true, false, not, ◌&&◌, ◌||◌, Option, none, some, Result, ok,
  err, value_error, type_error, key_error, raise_if, ◌>>◌, ◌>>=◌, List, [], ◌∷◌, ◌++◌,
  if◌then◌else◌, Floats, ℤ, pos, negsuc, ltb, nat_eq,
}
use expra_connect.Identity.{NodeId, PermissionSet, NodePermission, init_node_id}
use expra_connect.Cluster.Models.{
  ClusterRole, RoleSet, RoleAssignment, CoordinatorEpoch, CapabilityGrant, init_assignment,
  init_epoch, init_grant,
}
use expra_connect.Cluster.RoleState.{RoleState, init_role_state}
use expra_connect.Persistence.{
  Value, Items, Fields, null, bool, int, float, text, items, fields, no_item, item, no_field, field,
  get, text_items, texts,
}

abbrev one_if : Bool → String → List String
one_if true x = x ∷ []
one_if false x = []

-- the sorted values of a set of roles
unfoldable pub role_texts : RoleSet → List String
role_texts r =
    one_if r.coordinator "coordinator"
    ++ one_if r.subcoordinator "subcoordinator"
    ++ one_if r.worker "worker"

-- the sorted values of a set of permissions
unfoldable pub permission_texts : PermissionSet → List String
permission_texts p =
    one_if p.cleanup "cleanup"
    ++ one_if p.process_force_termination "process_force_termination"
    ++ one_if p.process_termination "process_termination"
    ++ one_if p.read_state "read_state"
    ++ one_if p.remote_management "remote_management"

abbrev pub no_roles : RoleSet
no_roles = record { worker = false; coordinator = false; subcoordinator = false }

-- frozenset(ClusterRole(item) for item in roles)
unfoldable pub roles_of : List String → Result RoleSet
roles_of [] = ok no_roles
roles_of (x ∷ l) = do
  r ← roles_of l
  if x == "worker"
      then ok (record r { worker = true })
      else if x == "coordinator"
      then ok (record r { coordinator = true })
      else if x == "subcoordinator"
      then ok (record r { subcoordinator = true })
      else err (value_error "not a valid ClusterRole")

abbrev pub no_permissions : PermissionSet
no_permissions = record {
  read_state = false;
  remote_management = false;
  process_termination = false;
  process_force_termination = false;
  cleanup = false;
}

-- frozenset(NodePermission(item) for item in permissions)
unfoldable pub permissions_of : List String → Result PermissionSet
permissions_of [] = ok no_permissions
permissions_of (x ∷ l) = do
  p ← permissions_of l
  if x == "read_state"
      then ok (record p { read_state = true })
      else if x == "remote_management"
      then ok (record p { remote_management = true })
      else if x == "process_termination"
      then ok (record p { process_termination = true })
      else if x == "process_force_termination"
      then ok (record p { process_force_termination = true })
      else if x == "cleanup"
      then ok (record p { cleanup = true })
      else err (value_error "not a valid NodePermission")

-- sorted(numbers), of a set that a list stands for: each number once
unfoldable pub insert_number : ℕ → List ℕ → List ℕ
insert_number n [] = n ∷ []
insert_number n (m ∷ l) =
    let rest = insert_number n l in
    if ltb n m then n ∷ m ∷ l else if nat_eq n m then m ∷ l else m ∷ rest

unfoldable pub sorted_numbers : List ℕ → List ℕ
sorted_numbers [] = []
sorted_numbers (n ∷ l) = insert_number n (sorted_numbers l)

abbrev pub malformed : {A : Type 0} → String → Result A
malformed message = err (value_error message)

abbrev pub texts_at : Option (List String) → String → Result (List String)
texts_at none message = malformed message
texts_at (some l) message = ok l

module _ {F : Type 0} where
  unfoldable pub assignment_to_dict : RoleAssignment → NodeId → Value F
  assignment_to_dict a node_id = fields (
      field "node_id" (text node_id) (
        field "roles" (items (text_items (role_texts a.roles))) (
          field "paused" (bool a.paused) (
            field "revoked" (bool a.revoked)
              (field "has_active_job" (bool a.has_active_job) no_field)))))

  -- an assignment without a node is left out
  unfoldable pub assignments_to_items : List RoleAssignment → Items F
  assignments_to_items [] = no_item
  assignments_to_items (a ∷ l) =
      let rest = assignments_to_items l in
      elim a.node_id [ none ↦ rest | some n ↦ item (assignment_to_dict a n) rest ]

  unfoldable pub epoch_to_value : Option (CoordinatorEpoch F) → Value F
  epoch_to_value none = null
  epoch_to_value (some e) = fields (
      field "epoch" (int (pos e.epoch)) (
        field "coordinator_id" (text e.coordinator_id) (
          field "fencing_token" (text e.fencing_token) (
            field "issued_at" (float e.issued_at)
              (field "lease_expires_at" (float e.lease_expires_at) no_field)))))

  unfoldable pub numbers_to_items : List ℕ → Items F
  numbers_to_items [] = no_item
  numbers_to_items (n ∷ l) = item (int (pos n)) (numbers_to_items l)

  unfoldable pub grant_to_dict : CapabilityGrant F → Value F
  grant_to_dict g = fields (
      field "subject" (text g.subject) (
        field "target" (text g.target) (
          field "permissions" (items (text_items (permission_texts g.permissions))) (
            field "issued_at" (float g.issued_at)
              (field "expires_at" (float g.expires_at) no_field)))))

  unfoldable pub grants_to_items : List (CapabilityGrant F) → Items F
  grants_to_items [] = no_item
  grants_to_items (g ∷ l) = item (grant_to_dict g) (grants_to_items l)

  unfoldable pub role_state_to_dict : RoleState F → Value F
  role_state_to_dict s = fields (
      field "assignments" (items (assignments_to_items s.assignments)) (
        field "epoch" (epoch_to_value s.epoch) (
          field "promotion_epochs" (items (numbers_to_items (sorted_numbers s.promotion_epochs)))
            (field "capability_grants" (items (grants_to_items s.capability_grants)) no_field))))

  -- the loops over a list
  unfoldable pub each : {A : Type 0} → (Value F → Result A) → Items F → Result (List A)
  each f no_item = ok []
  each f (item v l) = do x ← f v; xs ← each f l; ok (x ∷ xs)

  -- the roles of an assignment: "roles", or the one "role" where there are none
  abbrev pub raw_roles : Fields F → Option (Value F) → Option (List String)
  raw_roles d none = elim (get "role" d) [ some (text x) ↦ some (x ∷ []) | _ ↦ none ]
  raw_roles d (some null) = elim (get "role" d) [ some (text x) ↦ some (x ∷ []) | _ ↦ none ]
  raw_roles d (some (items l)) = texts l
  raw_roles d (some v) = none

  abbrev pub text_at : Option (Value F) → String → Result String
  text_at (some (text x)) message = ok x
  text_at v message = malformed message

  -- a field that is a bool, or False where it is missing
  abbrev pub flag : Option (Value F) → Result Bool
  flag none = ok false
  flag (some (bool b)) = ok b
  flag (some v) = malformed "role assignment boolean is malformed"

  abbrev pub dict_of : {A : Type 0} → Value F → Result A → (Fields F → Result A) → Result A
  dict_of (fields d) other f = f d
  dict_of v other f = other

  abbrev pub assignment_of : Fields F → Result RoleAssignment
  assignment_of d = do
    raw_id ← text_at (get "node_id" d) "role assignment is malformed"
    raw ← texts_at (raw_roles d (get "roles" d)) "role assignment is malformed"
    paused ← flag (get "paused" d)
    revoked ← flag (get "revoked" d)
    flag (get "has_active_job" d)
    roles ← roles_of raw
    node_id ← init_node_id raw_id
    init_assignment (record {
      roles = roles;
      node_id = some node_id;
      paused = paused;
      revoked = revoked;
      has_active_job = false;
    })

  unfoldable pub assignment_from_dict : Value F → Result RoleAssignment
  assignment_from_dict v = dict_of v (err (type_error "role assignment is malformed")) assignment_of

  abbrev pub natural : Value F → Result ℕ
  natural (int (pos n)) = ok n
  natural v = malformed "promotion epochs are malformed"

  -- the list at a key, or an empty one where there is none
  abbrev pub list_at : {A : Type 0} → Option (Value F) → Result A → (Items F → Result A) → Result A
  list_at none other f = f no_item
  list_at (some (items l)) other f = f l
  list_at (some v) other f = other

  abbrev pub epoch_number : Option (Value F) → Result ℕ
  epoch_number (some (int (pos n))) = ok n
  epoch_number v = malformed "epoch is malformed"

module _ {F : Type 0} ⦃fl : Floats F⦄ (float_of : ℤ → Result F) where
  abbrev pub finite_float : F → String → Result F
  finite_float t message =
      if fl.is_finite (fl.to_float t) then ok (fl.to_float t) else err (value_error message)

  -- `_finite_number`
  unfoldable pub finite_number : Option (Value F) → String → Result F
  finite_number (some (float t)) message = finite_float t message
  finite_number (some (int n)) message = do t ← float_of n; finite_float t message
  finite_number v message = err (value_error message)

  abbrev pub epoch_of : Fields F → Result (CoordinatorEpoch F)
  epoch_of d = do
    n ← epoch_number (get "epoch" d)
    raw_id ← text_at (get "coordinator_id" d) "epoch is malformed"
    token ← text_at (get "fencing_token" d) "epoch is malformed"
    raise_if (token == "") (value_error "epoch is malformed")
    coordinator_id ← init_node_id raw_id
    issued ← finite_number (get "issued_at" d) "epoch issued_at is malformed"
    lease ← finite_number (get "lease_expires_at" d) "epoch lease_expires_at is malformed"
    init_epoch (record {
      epoch = n;
      coordinator_id = coordinator_id;
      fencing_token = token;
      issued_at = issued;
      lease_expires_at = lease;
    })

  unfoldable pub epoch_from_value : Option (Value F) → Result (Option (CoordinatorEpoch F))
  epoch_from_value none = ok none
  epoch_from_value (some null) = ok none
  epoch_from_value (some v) = do
    e ← dict_of v (err (value_error "epoch is malformed")) epoch_of
    ok (some e)

  abbrev pub grant_of : Fields F → Result (CapabilityGrant F)
  grant_of d = do
    raw_subject ← text_at (get "subject" d) "capability grant is malformed"
    raw_target ← text_at (get "target" d) "capability grant is malformed"
    raw ←
        texts_at (elim (get "permissions" d) [ some (items l) ↦ texts l | _ ↦ none ])
          "capability grant is malformed"
    subject ← init_node_id raw_subject
    target ← init_node_id raw_target
    permissions ← permissions_of raw
    issued ← finite_number (get "issued_at" d) "grant issued_at is malformed"
    expires ← finite_number (get "expires_at" d) "grant expires_at is malformed"
    init_grant (record {
      subject = subject;
      target = target;
      permissions = permissions;
      issued_at = issued;
      expires_at = expires;
    })

  unfoldable pub grant_from_dict : Value F → Result (CapabilityGrant F)
  grant_from_dict v = dict_of v (err (value_error "capability grant is malformed")) grant_of

  abbrev pub role_state_of : Fields F → Items F → Result (RoleState F)
  role_state_of d raw = do
    assignments ← each assignment_from_dict raw
    epoch ← epoch_from_value (get "epoch" d)
    promotions ←
        list_at (get "promotion_epochs" d) (err (value_error "promotion epochs are malformed"))
          (each natural)
    grants ←
        list_at (get "capability_grants" d) (err (type_error "capability grants are malformed"))
          (each grant_from_dict)
    init_role_state (record {
      assignments = assignments;
      epoch = epoch;
      promotion_epochs = promotions;
      capability_grants = grants;
    })

  abbrev pub state_of : Fields F → Result (RoleState F)
  state_of d = elim (get "assignments" d) [
    | none ↦ err (key_error "assignments")
    | some (items l) ↦ role_state_of d l
    | some v ↦ err (type_error "role state is malformed")
  ]

  unfoldable pub role_state_from_dict : Value F → Result (RoleState F)
  role_state_from_dict v = dict_of v (err (type_error "role state is malformed")) state_of
