-- ===== src/Cluster/Lease.antt =====
-- Leases, promotion and rejoining, of src/expra_connect/cluster/roles.py. The random token of
-- `new_fencing_token` is an argument.
pub mod Promotion
pub mod Elected
pub mod Renewal
pub mod Rejoin
use Prim.Native.Char.{code}
use expra_connect.Prelude.{
  ℕ, ◌+◌, String, string_eq, ℕ_eq, option_eq, ◌==◌, ◌&&◌, Bool, true, false, not, Option, none,
  some, Result, type_error, fencing_error, raise_if, ◌>>=◌, ◌>>◌, ok, err, ltb, List, [], ◌∷◌,
  if◌then◌else◌, Floats, max, find?, contains,
}
use expra_connect.Identity.{NodeId}
use expra_connect.Cluster.Models.{
  RoleAssignment, init_assignment, assignment, CoordinatorEpoch, init_epoch, CapabilityGrant,
  worker_only, coordinator_roles,
}
use expra_connect.Cluster.RoleState.{
  RoleState, Moment, number, other, is_bound, assignment_for, replace, prune_capability_grants,
}
use expra_connect.Cluster.Roles.{finite, is_due}

unfoldable pub is_ascii : String → Bool
is_ascii String.[] = true
is_ascii (String.◌∷◌ c s) = ltb (code c) 128 && is_ascii s

-- `hmac.compare_digest` on two texts: equality, and a TypeError unless both are ASCII.
unfoldable pub compare_digest : String → String → Result Bool
compare_digest a b = do
  raise_if (not (is_ascii a && is_ascii b))
      (type_error "comparing strings with non-ASCII characters is not supported")
  ok (a == b)

-- the assignments of a promotion, each through its constructor
unfoldable pub demote_others :
    NodeId → RoleAssignment → List RoleAssignment → Result (List RoleAssignment)
demote_others sub promoted [] = ok []
demote_others sub promoted (a ∷ l) = do
  a' ←
      if a.node_id == some sub
      then ok promoted
      else init_assignment (record a { roles = worker_only })
  rest ← demote_others sub promoted l
  ok (a' ∷ rest)

-- not revoked, not paused, and a Subcoordinator
abbrev pub is_ready : RoleAssignment → Bool
is_ready a = not a.revoked && not a.paused && a.roles.subcoordinator

abbrev pub is_ready? : Option RoleAssignment → Bool
is_ready? none = false
is_ready? (some a) = is_ready a

abbrev stale : {A : Type 0} → Result A
stale = err (fencing_error "heartbeat fencing token is stale")

abbrev cannot_promote : {A : Type 0} → Result A
cannot_promote = err (fencing_error "subcoordinator cannot promote")

abbrev pub ready_subcoordinator : List RoleAssignment → Option RoleAssignment
ready_subcoordinator = find? (λ a. is_bound a && is_ready a)

-- `sub is None or sub.node_id is None`
abbrev pub ready_id : Option RoleAssignment → Option NodeId
ready_id none = none
ready_id (some a) = a.node_id

-- an `object` presented as an epoch: an int that is not negative, or anything else
pub data EpochClaim : Type 0 where
  natural : ℕ → EpochClaim
  malformed : EpochClaim

pub record PromotionDecision (F : Type 0) : Type 0 where
  pub role_assignment : RoleAssignment
  pub epoch : CoordinatorEpoch F
  pub assignments : List RoleAssignment
  pub capability_grants : List (CapabilityGrant F)

module _ {F : Type 0} where
  abbrev other_current_epoch : Option (CoordinatorEpoch F) → ℕ → Bool
  other_current_epoch none n = false
  other_current_epoch (some e) n = not (n == e.epoch)

  abbrev rejoined : RoleState F → Option RoleAssignment → Result (RoleState F)
  rejoined s none = ok s
  rejoined s (some a) = if not a.roles.coordinator then ok s else do
    a' ← init_assignment (record a { roles = worker_only; paused = false; has_active_job = false })
    replace s a'

  unfoldable pub rejoin_as_worker : RoleState F → NodeId → EpochClaim → Result (RoleState F)
  rejoin_as_worker s node_id malformed =
      err (fencing_error "returning node presented an invalid epoch")
  rejoin_as_worker s node_id (natural current_epoch) = do
    raise_if (other_current_epoch s.epoch current_epoch)
        (fencing_error "returning node presented a stale or unknown epoch")
    rejoined s (assignment_for s node_id)

module _ {F : Type 0} ⦃fl : Floats F⦄ where
  -- HEARTBEAT_TIMEOUT_SECONDS
  abbrev pub heartbeat_timeout_seconds : F
  heartbeat_timeout_seconds = fl.literal 120

  -- `_valid_time`
  unfoldable pub valid_time : Moment F → String → Result F
  valid_time (number x) field =
      if fl.is_finite x then ok (fl.to_float x) else err (fencing_error field)
  valid_time other field = err (fencing_error field)

  -- `fencing_token` is none where it is not a `str`.
  unfoldable pub renew_lease :
      CoordinatorEpoch F
      → NodeId
      → Option String
      → Moment F
      → Moment F
      → Result (CoordinatorEpoch F)
  renew_lease epoch coordinator_id none now lease_seconds = stale
  renew_lease epoch coordinator_id (some fencing_token) now lease_seconds =
      if not (epoch.coordinator_id == coordinator_id) then stale else do
        same ← compare_digest epoch.fencing_token fencing_token
        raise_if (not same) (fencing_error "heartbeat fencing token is stale")
        current ← valid_time now "heartbeat time is invalid"
        duration ← valid_time lease_seconds "lease duration is invalid"
        raise_if (fl.le duration (fl.literal 0)) (fencing_error "lease duration is invalid")
        raise_if (fl.le epoch.lease_expires_at current)
            (fencing_error "coordinator lease has expired")
        init_epoch (record epoch {
          issued_at = max fl.lt epoch.issued_at current;
          lease_expires_at = max fl.lt epoch.lease_expires_at (fl.add current duration);
        })

  abbrev may_promote : Option (CoordinatorEpoch F) → List ℕ → Moment F → Bool
  may_promote none epochs now = false
  may_promote (some e) epochs now =
      finite now && is_due now e.lease_expires_at && not (contains e.epoch epochs)

  unfoldable pub can_promote : RoleState F → NodeId → Moment F → Bool → Bool
  can_promote s subcoordinator_id now authenticated =
      authenticated
      && may_promote s.epoch s.promotion_epochs now
      && is_ready? (assignment_for s subcoordinator_id)

  -- the decision once the Subcoordinator and its id are known
  unfoldable pub decide :
      RoleState F → CoordinatorEpoch F → NodeId → F → String → Result (PromotionDecision F)
  decide s old sub current token = do
    epoch ← init_epoch (record {
      epoch = old.epoch + 1;
      coordinator_id = sub;
      fencing_token = token;
      issued_at = current;
      lease_expires_at = fl.add current heartbeat_timeout_seconds;
    })
    promoted ← init_assignment (assignment coordinator_roles (some sub))
    assignments ← demote_others sub promoted s.assignments
    ok (record {
      role_assignment = promoted;
      epoch = epoch;
      assignments = assignments;
      capability_grants = prune_capability_grants assignments s.capability_grants;
    })

  abbrev promote_known :
      RoleState F
      → CoordinatorEpoch F
      → F
      → Bool
      → String
      → Option NodeId
      → Result (PromotionDecision F)
  promote_known s old current authenticated token none = cannot_promote
  promote_known s old current authenticated token (some sub) =
      if can_promote s sub (number current) authenticated
      then decide s old sub current token
      else cannot_promote

  abbrev promote_in :
      RoleState F
      → Option (CoordinatorEpoch F)
      → Moment F
      → Bool
      → String
      → Result (PromotionDecision F)
  promote_in s none now authenticated token = err (fencing_error "no coordinator epoch exists")
  promote_in s (some old) now authenticated token = do
    current ← valid_time now "promotion time is invalid"
    promote_known s old current authenticated token (ready_id (ready_subcoordinator s.assignments))

  unfoldable pub promote_subcoordinator :
      RoleState F → Moment F → Bool → String → Result (PromotionDecision F)
  promote_subcoordinator s now authenticated token = promote_in s s.epoch now authenticated token
