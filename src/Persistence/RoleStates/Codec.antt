-- ===== src/Persistence/RoleStates/Codec.antt =====
-- The round trip of a role state through the codec of src/expra_connect/cluster/state.py.
use expra_connect.Prelude.{◌≡◌, refl, Option, none, some, Result, ok, map, All, Floats, ℤ}
use expra_connect.Cluster.Models.{CoordinatorEpoch}
use expra_connect.Cluster.RoleState.{RoleState, init_role_state}
use expra_connect.Persistence.{get}
use expra_connect.Persistence.RoleStates.{
  sorted_numbers, epoch_to_value, epoch_from_value, role_state_to_dict, role_state_from_dict,
}
use expra_connect.Persistence.RoleStates.Parts.{
  stored_assignments, stored_epoch, stored_grant, IsStoredAssignment, IsStoredEpoch, IsStoredGrant,
  numbers_back, assignments_back, epoch_back, grants_back,
}

module _ {F : Type 0} ⦃fl : Floats F⦄ where
  abbrev pub stored_epochs : Option (CoordinatorEpoch F) → Option (CoordinatorEpoch F)
  stored_epochs none = none
  stored_epochs (some e) = some (stored_epoch e)

  -- what is restored of a role state
  abbrev pub stored : RoleState F → RoleState F
  stored s = record {
    assignments = stored_assignments s.assignments;
    epoch = stored_epochs s.epoch;
    promotion_epochs = sorted_numbers s.promotion_epochs;
    capability_grants = map stored_grant s.capability_grants;
  }

  pub data HasStoredEpoch : Option (CoordinatorEpoch F) → Type 0 where
    vacant : HasStoredEpoch none
    held : {e : CoordinatorEpoch F} → IsStoredEpoch e → HasStoredEpoch (some e)

  -- A role state whose parts the constructors accept again.
  pub record IsStored (s : RoleState F) : Type 0 where
    pub all_assignments : All IsStoredAssignment s.assignments
    pub the_epoch : HasStoredEpoch s.epoch
    pub all_grants : All IsStoredGrant s.capability_grants
    pub accepted : init_role_state (stored s) ≡ ok (stored s)

module _ {F : Type 0} ⦃fl : Floats F⦄ (float_of : ℤ → Result F) where
  epochs_back :
      (o : Option (CoordinatorEpoch F))
      → HasStoredEpoch o
      → epoch_from_value float_of (some (epoch_to_value o)) ≡ ok (stored_epochs o)
  unfolding epoch_from_value epoch_to_value
  epochs_back none h = refl
  epochs_back (some e) (held h) = epoch_back float_of e h

  -- A role state is restored from its dictionary with its assignments in order, the ones without a
  -- node left out and none with an active job, the promotion epochs sorted, and the times of the
  -- epoch and the grants as floats, if its node ids are valid, its numbers finite, its fencing
  -- token not empty, and the constructors accept what is restored.
  pub role_state_round_trip :
      (s : RoleState F)
      → IsStored s
      → role_state_from_dict float_of (role_state_to_dict s) ≡ ok (stored s)
  unfolding role_state_from_dict role_state_to_dict get
  role_state_round_trip s h = rw (assignments_back F s.assignments h.all_assignments) (
      rw (epochs_back s.epoch h.the_epoch) (
        rw (numbers_back F (sorted_numbers s.promotion_epochs))
          (rw (grants_back float_of s.capability_grants h.all_grants) h.accepted)))
