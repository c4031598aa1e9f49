-- ===== src/Cluster/Invites.antt =====
-- Invites of `Cluster` in src/expra_connect/cluster/operations.py, with
-- src/expra_connect/cluster/invites.py for the invites that it makes. The hash of an invite's token
-- is an argument, and so are the random token and the time. A method leaves a cluster also when it
-- raises.
pub mod Spent
pub mod Admission
use expra_connect.Prelude.{
  ℕ, ℕ_eq, String, string_eq, ◌==◌, Bool, true, false, not, ◌&&◌, ◌||◌, Option, none, some, Result,
  ok, err, Error, value_error, permission_error, ◌>>=◌, ◌>>◌, raise_if, List, [], ◌∷◌, lookup, put,
  erase, contains, insert, if◌then◌else◌, Floats,
}
use expra_connect.Identity.{NodeId, init_node_id}
use expra_connect.Cluster.Models.{
  worker, assignment, worker_only, coordinator_roles, CoordinatorEpoch, InviteRecord, init_invite,
}
use expra_connect.Cluster.Operations.{
  Cluster, is_active_coordinator, local_assignment, is_member, assign,
}

-- `a or b` on what `get` gives; an invite is always true
abbrev first_of : {A : Type 0} → Option A → Option A → Option A
first_of none o = o
first_of (some a) o = some a

module _ {F : Type 0} ⦃fl : Floats F⦄ where
  -- `create_invite` of invites.py
  unfoldable pub make_invite :
      (String → String)
      → String
      → String
      → String
      → CoordinatorEpoch F
      → F
      → F
      → Result (InviteRecord F)
  make_invite hash_invite token cluster_id target_node_id epoch now ttl_seconds = do
    raise_if (not (fl.is_finite ttl_seconds) || fl.le ttl_seconds (fl.literal 0))
        (value_error "invite TTL must be positive")
    init_invite (record {
      token_hash = hash_invite token;
      target_node_id = target_node_id;
      expires_at = fl.add now ttl_seconds;
      token = token;
      cluster_id = cluster_id;
      coordinator_id = epoch.coordinator_id;
      epoch = epoch.epoch;
      fencing_token = epoch.fencing_token;
    })

  unfoldable pub create_invite :
      (String → String) → String → Cluster F → NodeId → F → Result (InviteRecord F × Cluster F)
  create_invite hash_invite token c target_id now = do
    raise_if (not (is_active_coordinator c))
        (permission_error "only an active local Coordinator may create invites")
    invite ← make_invite hash_invite token c.cluster_id target_id c.epoch now (fl.literal 300)
    ok (invite, record c { invites = put invite.token invite c.invites })

  abbrev admitted_before : InviteRecord F → NodeId → Result (InviteRecord F)
  admitted_before i target_id = do
    bound ← init_node_id i.target_node_id
    raise_if (not (bound == target_id)) (value_error "invite target mismatch")
    ok i

  -- the checks of a fresh invite; reading its target may raise
  abbrev fresh : Cluster F → Option (InviteRecord F) → Bool → NodeId → F → Result (InviteRecord F)
  fresh c none used target_id current = err (value_error "invite is expired or already consumed")
  fresh c (some i) used target_id current = do
    raise_if (used || fl.le i.expires_at current)
        (value_error "invite is expired or already consumed")
    bound ← init_node_id i.target_node_id
    raise_if
        (not (bound == target_id)
          || not (i.cluster_id == c.cluster_id)
          || not (i.epoch == c.epoch.epoch))
        (value_error "invite target or cluster mismatch")
    ok i

  -- the invite is gone and its digest used
  abbrev pub spend : Cluster F → String → String → Cluster F
  spend c token digest = record c {
    invites = erase digest (erase token c.invites);
    used_invites = insert digest c.used_invites;
  }

  abbrev admit :
      String → InviteRecord F → Cluster F → Result (Cluster F) → Result (InviteRecord F) × Cluster F
  admit digest i c (err e) = (err e, c)
  admit digest i c (ok c') = (
    ok i,
    record c' { join_admissions = put digest (record i { token = "" }) c'.join_admissions },
  )

  -- the invite is spent before the role is assigned
  abbrev consume_fresh :
      Cluster F
      → String
      → String
      → NodeId
      → F
      → Result (InviteRecord F)
      → Result (InviteRecord F) × Cluster F
  consume_fresh c token digest target_id clock (err e) = (err e, c)
  consume_fresh c token digest target_id clock (ok i) =
      admit digest i (spend c token digest) (assign (spend c token digest) target_id worker clock)

  abbrev consume_with :
      Cluster F
      → String
      → String
      → NodeId
      → F
      → F
      → Bool
      → Option (InviteRecord F)
      → Result (InviteRecord F) × Cluster F
  consume_with c token digest target_id current clock allow_retry (some a) =
      if allow_retry
      then (admitted_before a target_id, c)
      else (err (value_error "invite is expired or already consumed"), c)
  consume_with c token digest target_id current clock allow_retry none =
      consume_fresh c token digest target_id clock (
        fresh c (first_of (lookup token c.invites) (lookup digest c.invites))
          (contains digest c.used_invites) target_id current)

  unfoldable pub consume_invite :
      (String → String)
      → Cluster F
      → String
      → NodeId
      → F
      → F
      → Bool
      → Result (InviteRecord F) × Cluster F
  consume_invite hash_invite c token target_id current clock allow_retry =
      if not (is_active_coordinator c)
      then (err (permission_error "only an active local Coordinator may consume invites"), c)
      else consume_with c token (hash_invite token) target_id current clock allow_retry
          (lookup (hash_invite token) c.join_admissions)

  abbrev pub refused :
      {A : Type 0} → Error → Cluster F → Cluster F → Result A × Cluster F × Cluster F
  refused e c coordinator = (err e, c, coordinator)

  -- what the node that joins takes over from its coordinator
  abbrev pub joined : Cluster F → Cluster F → Cluster F
  joined c coordinator = record c {
    cluster_id = coordinator.cluster_id;
    epoch = coordinator.epoch;
    assignments =
        put coordinator.local_id (assignment coordinator_roles (some coordinator.local_id))
          ((c.local_id, assignment worker_only (some c.local_id)) ∷ []);
    is_online = put coordinator.local_id true c.is_online;
  }

  abbrev pub join_after :
      Cluster F → Result (InviteRecord F) × Cluster F → Result (Unit {0}) × Cluster F × Cluster F
  join_after c (err e, coordinator) = refused e c coordinator
  join_after c (ok i, coordinator) = (ok tt, joined c coordinator, coordinator)

  -- `join`, with the answer of the pairing: the node and its coordinator after it
  unfoldable pub join :
      (String → String)
      → Cluster F
      → String
      → Cluster F
      → Bool
      → F
      → F
      → Result (Unit {0}) × Cluster F × Cluster F
  join hash_invite c token coordinator paired current clock =
      if not paired
      then refused (permission_error "cluster Join requires an authenticated Pair") c coordinator
      else if (local_assignment c).revoked || (local_assignment c).paused
      then refused (permission_error "paused or revoked local membership cannot join") c coordinator
      else if c.cluster_id == coordinator.cluster_id && is_member c c.local_id
      then refused (value_error "local node has already joined this cluster") c coordinator
      else join_after c (consume_invite hash_invite coordinator token c.local_id current clock true)
