-- ===== src/Tests.antt =====
-- The theorems at work on concrete values, and the values that the tests share.
mod Clock
mod RoleStates
mod Leadership
mod Discovery
mod Invites
mod Peers
mod Pairing
mod Remote
mod Trust
mod Stored
mod Protocol
use expra_connect.Prelude.{
  ℕ, ◌≡◌, refl, String, string_eq, option_eq, pair_eq, ◌==◌, Bool, true, false, Option, none, some,
  List, [], ◌∷◌, arith, lookup, put,
}
use expra_connect.Identity.{PermissionSet}
use expra_connect.Cluster.Models.{
  RoleAssignment, RoleSet, CoordinatorEpoch, CapabilityGrant, assignment, coordinator_roles,
  worker_only, singleton, ClusterRole,
}
use expra_connect.Cluster.RoleState.{RoleState}
use expra_connect.Cluster.RoleState.Valid.{IsValid}

abbrev read_and_clean : PermissionSet
read_and_clean = record {
  read_state = true;
  remote_management = false;
  process_termination = false;
  process_force_termination = false;
  cleanup = true;
}

abbrev leader : RoleAssignment
leader = assignment coordinator_roles (some "alpha")

abbrev deputy : RoleAssignment
deputy = assignment (singleton ClusterRole.subcoordinator) (some "bravo")

abbrev helper : RoleAssignment
helper = assignment worker_only (some "carol")

abbrev first_epoch : CoordinatorEpoch ℕ
first_epoch = record {
  epoch = 1;
  coordinator_id = "alpha";
  fencing_token = "token-1";
  issued_at = 0;
  lease_expires_at = 120;
}

abbrev cleanup_grant : CapabilityGrant ℕ
cleanup_grant = record {
  subject = "bravo";
  target = "carol";
  permissions = read_and_clean;
  issued_at = 10;
  expires_at = 50;
}

-- a Coordinator, a Subcoordinator with a grant, and a Worker
abbrev team : RoleState ℕ
team = record {
  assignments = leader ∷ deputy ∷ helper ∷ [];
  epoch = some first_epoch;
  promotion_epochs = [];
  capability_grants = cleanup_grant ∷ [];
}

team-IsValid : IsValid team
team-IsValid = record {
  well_formed = ground arith;
  ids_distinct = refl;
  one_coordinator = omega arith;
  one_subcoordinator = omega arith;
  keys_distinct = refl;
  grants_live = ((refl, refl), tt);
}
