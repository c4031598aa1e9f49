-- ===== src/Cluster/History.antt =====
-- Histories of a role state: any sequence of the operations of src/expra_connect/cluster/roles.py
-- and src/expra_connect/cluster/failover.py, each with any actor and any arguments.
pub mod Fencing
use expra_connect.Prelude.{
  insert, ℕ_eq, ℕ, ◌-◌, ◌+◌, ◌≤◌, ◌<◌, ◌≡◌, refl, sym, ◌∙◌, subst, ap, Bool, true, false, not,
  Option, none, some, arith, Bool-cases, Option-cases, inl, inr, Result, ok, err, Error, Ensures,
  Ensures-ok, ◌>>=◌, ◌>>◌, List, [], ◌∷◌, String, Floats, ◌⊎◌,
}
use expra_connect.Identity.{NodeId, PermissionSet}
use expra_connect.Cluster.Models.{RoleAssignment, RoleSet, RoleChange, CoordinatorEpoch}
use expra_connect.Cluster.RoleState.{
  RoleState, Moment, number, init_role_state, pause, resume, revoke, clear_revocation, replace,
  cleared,
}
use expra_connect.Cluster.RoleState.Valid.{IsValid}
use expra_connect.Cluster.Roles.{assign, job, grant_capabilities, revoke_capabilities}
use expra_connect.Cluster.Lease.{
  PromotionDecision, promote_subcoordinator, renew_lease, rejoin_as_worker, EpochClaim, natural,
  malformed,
}
use expra_connect.Cluster.Failover.{promoted_state}

module _ {F : Type 0} where
  pub init_role_state_same : (s t : RoleState F) → init_role_state s ≡ ok t → t ≡ s
  unfolding init_role_state
  init_role_state_same s t h = ground arith

  replace-epoch : (s t : RoleState F) (a : RoleAssignment) → replace s a ≡ ok t → t.epoch ≡ s.epoch
  unfolding replace init_role_state
  replace-epoch s t a h = ground arith

  module _ (s t : RoleState F) (actor : RoleAssignment) (target : NodeId) where
    pub pause-epoch : pause s actor target ≡ ok t → t.epoch ≡ s.epoch
    unfolding pause replace init_role_state
    pause-epoch h = ground arith

    pub resume-epoch : resume s actor target ≡ ok t → t.epoch ≡ s.epoch
    unfolding resume replace init_role_state
    resume-epoch h = ground arith

    pub revoke-epoch : revoke s actor target ≡ ok t → t.epoch ≡ s.epoch
    unfolding revoke replace init_role_state
    revoke-epoch h = ground arith

    pub job-epoch : (active : Bool) → job s actor target active ≡ ok t → t.epoch ≡ s.epoch
    unfolding job replace init_role_state
    job-epoch active h = ground arith

    pub revoke_capabilities-epoch :
        (subject : NodeId) → revoke_capabilities s actor subject target ≡ ok t → t.epoch ≡ s.epoch
    unfolding revoke_capabilities init_role_state
    revoke_capabilities-epoch subject h = ground arith

  pub clear_revocation-epoch :
      (s t : RoleState F) (target : NodeId) → clear_revocation s target ≡ ok t → t.epoch ≡ s.epoch
  unfolding clear_revocation init_role_state
  clear_revocation-epoch s t target h = ground arith

  pub rejoin_as_worker-epoch :
      (s t : RoleState F) (node_id : NodeId) (e : EpochClaim)
      → rejoin_as_worker s node_id e ≡ ok t
      → t.epoch ≡ s.epoch
  unfolding rejoin_as_worker replace init_role_state
  rejoin_as_worker-epoch s t node_id malformed h = ground arith
  rejoin_as_worker-epoch s t node_id (natural n) h = ground arith

module _ {F : Type 0} ⦃fl : Floats F⦄ where
  pub assign-epoch :
      (s t : RoleState F) (c : RoleChange F) (actor : RoleAssignment) (target : NodeId)
      (roles : RoleSet) (now : F)
      → assign s actor target roles now ≡ ok (t, c)
      → t.epoch ≡ s.epoch
  unfolding assign init_role_state
  assign-epoch s t c actor target roles now h = ground arith

  pub grant_capabilities-epoch :
      (s t : RoleState F) (actor : RoleAssignment) (subject target : NodeId)
      (permissions : PermissionSet) (now expires_at : F)
      → grant_capabilities s actor subject target permissions now expires_at ≡ ok t
      → t.epoch ≡ s.epoch
  unfolding grant_capabilities init_role_state
  grant_capabilities-epoch s t actor subject target permissions now expires_at h = ground arith

  pub promoted_state_same :
      (s t : RoleState F) (d : PromotionDecision F)
      → promoted_state s d ≡ ok t
      → t ≡ record {
        assignments = d.assignments;
        epoch = some d.epoch;
        promotion_epochs = insert (d.epoch.epoch - 1) s.promotion_epochs;
        capability_grants = d.capability_grants;
      }
  unfolding promoted_state
  promoted_state_same s t d h = init_role_state_same _ t h

  -- One operation that succeeds. Actors and arguments are arbitrary.
  pub data Step (s t : RoleState F) : Type 0 where
    assigns :
        (actor : RoleAssignment) (target : NodeId) (roles : RoleSet) (now : F) (c : RoleChange F)
        → assign s actor target roles now ≡ ok (t, c)
        → Step s t
    pauses : (actor : RoleAssignment) (target : NodeId) → pause s actor target ≡ ok t → Step s t
    resumes : (actor : RoleAssignment) (target : NodeId) → resume s actor target ≡ ok t → Step s t
    revokes : (actor : RoleAssignment) (target : NodeId) → revoke s actor target ≡ ok t → Step s t
    clears : (target : NodeId) → clear_revocation s target ≡ ok t → Step s t
    jobs :
        (actor : RoleAssignment) (target : NodeId) (active : Bool)
        → job s actor target active ≡ ok t
        → Step s t
    grants :
        (actor : RoleAssignment) (subject target : NodeId) (permissions : PermissionSet)
        (now expires_at : F)
        → grant_capabilities s actor subject target permissions now expires_at ≡ ok t
        → Step s t
    ungrants :
        (actor : RoleAssignment) (subject target : NodeId)
        → revoke_capabilities s actor subject target ≡ ok t
        → Step s t
    rejoins : (node_id : NodeId) (e : EpochClaim) → rejoin_as_worker s node_id e ≡ ok t → Step s t
    renews :
        (old new : CoordinatorEpoch F) (coordinator_id : NodeId) (token : Option String)
        (now lease : Moment F)
        → s.epoch ≡ some old
        → renew_lease old coordinator_id token now lease ≡ ok new
        → init_role_state (record s { epoch = some new }) ≡ ok t
        → Step s t
    promotes :
        (now : Moment F) (authenticated : Bool) (token : String) (d : PromotionDecision F)
        → promote_subcoordinator s now authenticated token ≡ ok d
        → promoted_state s d ≡ ok t
        → Step s t

  pub data History (s : RoleState F) : RoleState F → Type 0 where
    start : History s s
    then : {t u : RoleState F} → History s t → Step t u → History s u
