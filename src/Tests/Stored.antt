-- ===== src/Tests/Stored.antt =====
-- The codec of role states, at the team of three.
use expra_connect.Prelude.{
  ℕ, ◌≡◌, refl, string_eq, option_eq, pair_eq, ℕ_eq, true, [], ◌∷◌, ok, Result, err, value_error, ℤ,
  pos,
}
use expra_connect.Identity.{init_node_id}
use expra_connect.Cluster.Models.{init_assignment, normal_roles, init_epoch, init_grant}
use expra_connect.Cluster.RoleState.{RoleState, init_role_state}
use expra_connect.Persistence.RoleStates.{
  sorted_numbers, insert_number, role_state_to_dict, role_state_from_dict,
}
use expra_connect.Persistence.RoleStates.Parts.{bound}
use expra_connect.Persistence.RoleStates.Codec.{stored, held, IsStored, role_state_round_trip}
use expra_connect.Tests.{leader, deputy, helper, team}
use expra_connect.Tests.Clock.{seconds}

abbrev float_of : ℤ → Result ℕ
float_of (pos n) = ok n
float_of z = err (value_error "negative")

-- the team, once its Worker has a job and two epochs are spent
abbrev busy_team : RoleState ℕ
busy_team = record team {
  assignments = leader ∷ deputy ∷ record helper { has_active_job = true } ∷ [];
  promotion_epochs = 2 ∷ 1 ∷ [];
}

busy_team-IsStored : IsStored busy_team
unfolding init_node_id init_assignment normal_roles init_epoch init_grant init_role_state
    sorted_numbers insert_number
busy_team-IsStored = record {
  all_assignments = (
    bound "alpha" refl refl refl,
    (bound "bravo" refl refl refl, (bound "carol" refl refl refl, tt)),
  );
  the_epoch = held (record {
    valid_id = refl;
    has_token = refl;
    finite_issued = refl;
    finite_lease = refl;
    accepted = refl;
  });
  all_grants = (
    record {
      valid_subject = refl;
      valid_target = refl;
      finite_issued = refl;
      finite_expiry = refl;
      accepted = refl;
    },
    tt,
  );
  accepted = refl;
}

-- what is restored of the team: no job, and the epochs in order
restored_promotions : (stored busy_team).promotion_epochs ≡ 1 ∷ 2 ∷ []
unfolding sorted_numbers insert_number
restored_promotions = refl

role_state_round_trip_example :
    role_state_from_dict float_of (role_state_to_dict busy_team) ≡ ok (stored busy_team)
role_state_round_trip_example = role_state_round_trip float_of busy_team busy_team-IsStored
