-- ===== src/Tests/RoleStates.antt =====
-- The theorems on the role state, at the team of three.
use expra_connect.Prelude.{
  ℕ, ◌≡◌, ◌↔◌, refl, string_eq, option_eq, pair_eq, ℕ_eq, true, some, [], ◌∷◌, ok, lookup, put,
}
use expra_connect.Identity.{NodePermission}
use expra_connect.Cluster.Models.{init_assignment, normal_roles}
use expra_connect.Cluster.RoleState.{
  RoleState, number, revoke, control, assignment_for, replace, replace_assignment, init_role_state,
  prune_capability_grants, index_assignments,
}
use expra_connect.Cluster.RoleState.Revoked.{IsRevoked, revoke_effect}
use expra_connect.Cluster.Roles.{allows}
use expra_connect.Cluster.Roles.Access.{HasAuthority, Access, control_iff, allows_iff}
use expra_connect.Tests.{leader, deputy, helper, team, team-IsValid}
use expra_connect.Tests.Clock.{seconds}

allows_iff_example :
    (allows team "bravo" "carol" NodePermission.cleanup (number 20) ≡ true)
    ↔ Access team "bravo" "carol" NodePermission.cleanup 20
allows_iff_example = allows_iff team team-IsValid "bravo" "carol" NodePermission.cleanup 20 refl

control_iff_example :
    (control team leader ≡ ok "alpha")
    ↔ ((leader.node_id ≡ some "alpha") × HasAuthority team "alpha")
control_iff_example = control_iff team team-IsValid leader "alpha"

-- the team once its Worker is removed
abbrev without_helper : RoleState ℕ
without_helper = record team {
  assignments = leader ∷ deputy ∷ record helper { revoked = true } ∷ [];
  capability_grants = [];
}

removes_helper : revoke team leader "carol" ≡ ok without_helper
unfolding revoke control assignment_for index_assignments lookup put init_assignment normal_roles
    replace replace_assignment init_role_state prune_capability_grants
removes_helper = refl

revoke_effect_example : IsRevoked team without_helper "carol"
revoke_effect_example = revoke_effect team without_helper leader "carol" team-IsValid removes_helper
