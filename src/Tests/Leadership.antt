-- ===== src/Tests/Leadership.antt =====
-- The theorems on leases, failover and histories, at the team of three.
use expra_connect.Prelude.{
  ℕ, ◌≡◌, ◌≤◌, refl, string_eq, option_eq, pair_eq, ℕ_eq, true, false, some, List, [], ◌∷◌, ok,
  Ensures, lookup, put,
}
use expra_connect.Cluster.Models.{
  RoleAssignment, CoordinatorEpoch, coordinator_roles, worker_only, assignment, init_assignment,
  normal_roles, init_epoch,
}
use expra_connect.Cluster.RoleState.{
  RoleState, number, assignment_for, init_role_state, prune_capability_grants, index_assignments,
}
use expra_connect.Cluster.RoleState.Valid.{IsValid}
use expra_connect.Cluster.Lease.{
  PromotionDecision, promote_subcoordinator, renew_lease, demote_others, valid_time, can_promote,
  decide,
}
use expra_connect.Cluster.Lease.Elected.{
  IsPromotion, IsPromotionError, promote_subcoordinator-Ensures,
}
use expra_connect.Cluster.Lease.Renewal.{IsRenewal, IsRenewalError, renew_lease-Ensures}
use expra_connect.Cluster.Roles.{finite}
use expra_connect.Cluster.Failover.{
  FailoverCoordinator, Persist, heartbeat, promoted_state, promote_if_due,
}
use expra_connect.Cluster.Failover.Publish.{Outcome}
use expra_connect.Cluster.Failover.Methods.{
  promote_if_due-Outcome, heartbeat-Outcome, IsPromoted, IsRenewed,
}
use expra_connect.Cluster.History.{History, start, then, promotes}
use expra_connect.Cluster.History.Fencing.{History-IsValid, epoch_has_one_owner}
use expra_connect.Tests.{helper, team, team-IsValid, first_epoch}
use expra_connect.Tests.Clock.{seconds}

abbrev second_epoch : CoordinatorEpoch ℕ
second_epoch = record {
  epoch = 2;
  coordinator_id = "bravo";
  fencing_token = "token-2";
  issued_at = 130;
  lease_expires_at = 250;
}

abbrev new_leader : RoleAssignment
new_leader = assignment coordinator_roles (some "bravo")

abbrev demoted_team : List RoleAssignment
demoted_team = assignment worker_only (some "alpha") ∷ new_leader ∷ helper ∷ []

abbrev decision : PromotionDecision ℕ
decision = record {
  epoch = second_epoch;
  role_assignment = new_leader;
  assignments = demoted_team;
  capability_grants = [];
}

-- the team after its Subcoordinator has taken over
abbrev team_after : RoleState ℕ
team_after = record {
  assignments = demoted_team;
  epoch = some second_epoch;
  promotion_epochs = 1 ∷ [];
  capability_grants = [];
}

decides : promote_subcoordinator team (number 130) true "token-2" ≡ ok decision
unfolding promote_subcoordinator assignment_for index_assignments lookup put init_assignment
    normal_roles init_role_state prune_capability_grants demote_others valid_time can_promote decide
    init_epoch finite
decides = refl

takes_over : promoted_state team decision ≡ ok team_after
unfolding promoted_state init_role_state
takes_over = refl

handover : History team team_after
handover = then start (promotes (number 130) true "token-2" decision decides takes_over)

epoch_has_one_owner_example :
    (1 ≤ 2)
    × (second_epoch.epoch ≡ first_epoch.epoch
        → (second_epoch.coordinator_id ≡ first_epoch.coordinator_id)
          × (second_epoch.fencing_token ≡ first_epoch.fencing_token))
epoch_has_one_owner_example =
    epoch_has_one_owner team team_after first_epoch second_epoch team-IsValid handover refl refl

History-IsValid_example : IsValid team_after
History-IsValid_example = History-IsValid team team_after team-IsValid handover

promote_subcoordinator-Ensures_example :
    Ensures IsPromotionError
      (IsPromotion team (number 130))
      (promote_subcoordinator team (number 130) true "token-2")
promote_subcoordinator-Ensures_example =
    promote_subcoordinator-Ensures team team-IsValid (number 130) true "token-2"

renew_lease-Ensures_example :
    Ensures
      (IsRenewalError first_epoch (some "token-1"))
      (IsRenewal first_epoch "alpha" (some "token-1") (number 60) (number 120))
      (renew_lease first_epoch "alpha" (some "token-1") (number 60) (number 120))
renew_lease-Ensures_example =
    renew_lease-Ensures first_epoch "alpha" (some "token-1") (number 60) (number 120)

-- a host that accepts every state
abbrev always : Persist ℕ
always = some (λ _. ok tt)

abbrev failover : FailoverCoordinator ℕ
failover = record { state = team; persisted = [] }

promote_if_due-Outcome_example :
    Outcome always failover
      (λ a. a ≡ false)
      (λ a s. (a ≡ true) × IsPromoted always failover team-IsValid 130 s)
      (promote_if_due always "token-2" 130 failover)
promote_if_due-Outcome_example = promote_if_due-Outcome always failover team-IsValid "token-2" 130

heartbeat-Outcome_example :
    Outcome always failover
      (λ a. a ≡ false)
      (λ a s. (a ≡ true) × IsRenewed always failover team-IsValid "alpha" (some "token-1") 60 s)
      (heartbeat always "alpha" (some "token-1") 60 failover)
heartbeat-Outcome_example =
    heartbeat-Outcome always failover team-IsValid "alpha" (some "token-1") 60
