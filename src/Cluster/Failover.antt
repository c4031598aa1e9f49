-- ===== src/Cluster/Failover.antt =====
-- `FailoverCoordinator` of src/expra_connect/cluster/failover.py. `persist` is a callback of the
-- host: an argument that returns or raises. A method runs under the object's lock, so it is one
-- step from a coordinator to its result and the coordinator after it.
pub mod Publish
pub mod Methods
use expra_connect.Prelude.{
  ◌-◌, String, ℕ_eq, Bool, true, false, Option, none, some, Result, fencing_error, ◌>>=◌, ok, err,
  List, ◌∷◌, Floats, insert,
}
use expra_connect.Identity.{NodeId}
use expra_connect.Cluster.Models.{RoleAssignment, RoleSet, RoleChange, CoordinatorEpoch}
use expra_connect.Cluster.RoleState.{RoleState, number, init_role_state, revoke}
use expra_connect.Cluster.Roles.{assign}
use expra_connect.Cluster.Lease
use expra_connect.Cluster.Lease.{
  EpochClaim, PromotionDecision, renew_lease, promote_subcoordinator, heartbeat_timeout_seconds,
}

pub record FailoverCoordinator (F : Type 0) : Type 0 where
  pub state : RoleState F
  -- what `persist` has accepted, the latest first
  pub persisted : List (RoleState F)

-- A method: its result or exception, and the coordinator that it leaves.
abbrev pub Action : Type 0 → Type 0 → Type 0
Action F A = FailoverCoordinator F → Result A × FailoverCoordinator F

-- the callback, or None
abbrev pub Persist : Type 0 → Type 0
Persist F = Option (RoleState F → Result (Unit {0}))

module _ {F : Type 0} where
  abbrev publish : RoleState F → Result (Unit {0}) → Action F (Unit {0})
  publish candidate (err e) c = (err e, c)
  publish candidate (ok _) c =
      (ok tt, record { state = candidate; persisted = candidate ∷ c.persisted })

  -- `_commit`: the state is published only after the callback has returned.
  unfoldable pub commit : Persist F → RoleState F → Action F (Unit {0})
  commit none candidate c = (ok tt, record c { state = candidate })
  commit (some persist) candidate c = publish candidate (persist candidate) c

  -- an exception leaves the object alone, a candidate is committed and `a` returned
  abbrev commit_result : {A : Type 0} → Persist F → Result (RoleState F × A) → Action F A
  commit_result persist (err e) c = (err e, c)
  commit_result persist (ok (candidate, a)) c =
      let (r, c') = commit persist candidate c in (r >>= (λ _. ok a), c')

  -- `try: ... except FencingError: return False`
  abbrev fenced : Persist F → Result (RoleState F) → Action F Bool
  fenced persist (err (fencing_error m)) c = (ok false, c)
  fenced persist (err e) c = (err e, c)
  fenced persist (ok candidate) c = commit_result persist (ok (candidate, true)) c

  unfoldable pub rejoin_as_worker : Persist F → NodeId → EpochClaim → Action F (Unit {0})
  rejoin_as_worker persist node_id current_epoch c =
      commit_result persist
        (Lease.rejoin_as_worker c.state node_id current_epoch >>= (λ s. ok (s, tt))) c

  unfoldable pub revoke_member : Persist F → RoleAssignment → NodeId → Action F (Unit {0})
  revoke_member persist actor target c =
      commit_result persist (revoke c.state actor target >>= (λ s. ok (s, tt))) c

module _ {F : Type 0} ⦃fl : Floats F⦄ where
  abbrev renewed :
      RoleState F → CoordinatorEpoch F → NodeId → Option String → F → Result (RoleState F)
  renewed s epoch coordinator_id fencing_token now = do
    epoch' ←
        renew_lease epoch coordinator_id fencing_token (number now)
          (number heartbeat_timeout_seconds)
    init_role_state (record s { epoch = some epoch' })

  abbrev heartbeat_in :
      Persist F → Option (CoordinatorEpoch F) → NodeId → Option String → F → Action F Bool
  heartbeat_in persist none coordinator_id fencing_token now c = (ok false, c)
  heartbeat_in persist (some epoch) coordinator_id fencing_token now c =
      fenced persist (renewed c.state epoch coordinator_id fencing_token now) c

  unfoldable pub heartbeat : Persist F → NodeId → Option String → F → Action F Bool
  heartbeat persist coordinator_id fencing_token now c =
      heartbeat_in persist c.state.epoch coordinator_id fencing_token now c

  -- the candidate of `promote_if_due`, whose new random token is an argument
  unfoldable pub promoted_state : RoleState F → PromotionDecision F → Result (RoleState F)
  promoted_state s d = init_role_state (record {
    assignments = d.assignments;
    epoch = some d.epoch;
    promotion_epochs = insert (d.epoch.epoch - 1) s.promotion_epochs;
    capability_grants = d.capability_grants;
  })

  -- The `try` covers the decision alone.
  abbrev promote_by : Persist F → Result (PromotionDecision F) → Action F Bool
  promote_by persist (err (fencing_error m)) c = (ok false, c)
  promote_by persist (err e) c = (err e, c)
  promote_by persist (ok d) c =
      commit_result persist (promoted_state c.state d >>= (λ s. ok (s, true))) c

  unfoldable pub promote_if_due : Persist F → String → F → Action F Bool
  promote_if_due persist token now c =
      promote_by persist (promote_subcoordinator c.state (number now) true token) c

  unfoldable pub assign_role :
      Persist F → RoleAssignment → NodeId → RoleSet → F → Action F (RoleChange F)
  assign_role persist actor target roles now c =
      commit_result persist (assign c.state actor target roles now) c
