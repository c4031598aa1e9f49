-- ===== src/Pairing/Target.antt =====
-- The target of a pairing: src/expra_connect/pairing/target.py and the handlers of
-- src/expra_connect/runtime/core.py that confirm, abort and elevate. The answers of the callbacks of
-- the host and of `_save_persisted_state` are arguments, the locks make each handler one step. What
-- the service was last given is the dict of the grants in their wire form; the capability grants of
-- the cluster, which the same call passes on unchanged, are left out.
use expra_connect.Prelude.{
  String, string_eq, option_eq, int_eq, ◌==◌, Bool, true, false, not, ◌&&◌, Option, none, some,
  Result, ok, err, value_error, key_error, pairing_busy, persistence_error, ◌>>=◌, ◌>>◌, raise_if,
  ◌||◌, List, [], ◌∷◌, Dict, lookup, put, erase, any, contains, if◌then◌else◌, Floats, ℤ,
}
use expra_connect.Identity.{NodeId}
use expra_connect.Nodes.{NodeRegistry, NodeRecord, record_of, hydrate_trust}
use expra_connect.Pairing.{
  inbound, Material, PendingPairing, PeerGrant, PairingManager, begin, approve, abort,
  find_pending_for, grant_root_continuous,
}
use expra_connect.Pairing.Relationship.{get_grant, snapshot, restore_snapshot}

pub record WirePeerGrant : Type 0 where
  pub caller_node_id : NodeId
  pub secret : String
  pub permissions : List String

-- the part of `ConnectRuntime` that the handlers use
pub record Target (F : Type 0) : Type 0 where
  pub node_id : NodeId
  pub pairing : PairingManager F
  pub pending_permissions : Dict String (List String)
  pub registry : Option (NodeRegistry F)
  pub service : Option (Dict NodeId WirePeerGrant)

pub record PairingRequest : Type 0 where
  pub caller_node_id : NodeId
  pub identity_fingerprint : String
  pub transport_fingerprint : String
  pub proposed_secret : String
  pub permissions : List String
  pub root_public_key : Option String
  pub transport_generation : Option ℤ
  pub transport_proof : Option String
  pub intent : String

pub data Outcome : Type 0 where
  denied identity_conflict already_paired already_pending persistence_failed : Outcome

-- What a request takes from outside: the answer of the host's callback, where it is set and does not
-- raise, the readings of the clock, the new id and secret, and whether the state was saved.
pub record Outside (F : Type 0) : Type 0 where
  pub callback : Bool
  pub asked : F
  pub replayed : F
  pub checked : F
  pub started : F
  pub new_id : String
  pub token : String
  pub saved : Bool

-- The dict that answers a request: a refusal, or a transaction with the permissions kept for it.
pub data PairingResponse (F : Type 0) : Type 0 where
  refused : Outcome → PairingResponse F
  approved : PendingPairing F → List String → PairingResponse F

abbrev pub request_material : PairingRequest → Material
request_material r = record {
  identity_fingerprint = some r.identity_fingerprint;
  transport_fingerprint = some r.transport_fingerprint;
  root_public_key = r.root_public_key;
  transport_generation = r.transport_generation;
  transport_proof = r.transport_proof;
}

-- the texts that `NodePermission` accepts
abbrev pub is_node_permission : String → Bool
is_node_permission text =
    text == "read_state"
    || text == "remote_management"
    || text == "process_termination"
    || text == "process_force_termination"
    || text == "cleanup"

-- a permission of the grant is no `NodePermission`
unfoldable pub has_other_permission : PeerGrant → Bool
has_other_permission g = any (λ x. not (is_node_permission x)) g.permissions

-- `_wire_grants`, which raises at a permission such as "ping"
unfoldable pub wire_grants : Dict NodeId PeerGrant → Result (Dict NodeId WirePeerGrant)
wire_grants [] = ok []
wire_grants ((k, g) ∷ l) = do
  raise_if (has_other_permission g) (value_error "not a valid NodePermission")
  rest ← wire_grants l
  ok (
      (k, record { caller_node_id = g.caller_id; secret = g.secret; permissions = g.permissions })
      ∷ rest)

-- what the service is given, if there is one
abbrev pub refreshed :
    {F : Type 0}
    → PairingManager F
    → Option (Dict NodeId WirePeerGrant)
    → Result (Option (Dict NodeId WirePeerGrant))
refreshed m none = ok none
refreshed m (some live) = do w ← wire_grants m.grants; ok (some w)

-- two frozensets are equal
abbrev pub same_permissions : List String → List String → Bool
same_permissions a b =
    not (any (λ x. not (contains x b)) a) && not (any (λ x. not (contains x a)) b)

module _ {F : Type 0} where
  -- `pairing_response`
  unfoldable pub pairing_response : Target F → PendingPairing F → Result (PairingResponse F)
  pairing_response s t = elim (lookup t.transaction_id s.pending_permissions) [
    | none ↦ err (key_error t.transaction_id)
    | some permissions ↦ ok (approved t permissions)
  ]

  abbrev pub refuse : Target F → Outcome → Result (PairingResponse F) × Target F
  refuse s outcome = (ok (refused outcome), s)

  -- the answer to a transaction that has just begun, once the state was saved or not
  abbrev pub published : Target F → PendingPairing F → Bool → Result (PairingResponse F) × Target F
  published s t true = (pairing_response s t, s)
  published s t false =
      refuse
        (record s {
          pairing = abort s.pairing t.transaction_id;
          pending_permissions = erase t.transaction_id s.pending_permissions;
        })
        persistence_failed

  abbrev pub begun_for :
      Target F
      → PairingRequest
      → Bool
      → Result (PendingPairing F × PairingManager F)
      → Result (PairingResponse F) × Target F
  begun_for s r saved (err (pairing_busy m)) = refuse s already_pending
  begun_for s r saved (err e) = (err e, s)
  begun_for s r saved (ok (t, m)) =
      published
        (record s {
          pairing = m;
          pending_permissions = put t.transaction_id r.permissions s.pending_permissions;
        })
        t saved

  -- `_refresh_live_grants`, of what the service is given
  abbrev pub with_service :
      Target F → Result (Option (Dict NodeId WirePeerGrant)) → Result (Unit {0}) × Target F
  with_service s (err e) = (err e, s)
  with_service s (ok live) = (ok tt, record s { service = live })

  unfoldable pub refresh_live_grants : Target F → Result (Unit {0}) × Target F
  refresh_live_grants s = with_service s (refreshed s.pairing s.service)

  -- the grant that is returned unless the refresh raises; it is stored and saved in either case
  abbrev pub after_refresh : PeerGrant → Result (Unit {0}) × Target F → Result PeerGrant × Target F
  after_refresh g (err e, s) = (err e, s)
  after_refresh g (ok u, s) = (ok g, s)

  abbrev hydrated : NodeRegistry F → Result (NodeRecord F × NodeRegistry F) → NodeRegistry F
  hydrated r (err e) = r
  hydrated r (ok (n, q)) = q

  abbrev projected : NodeId → Option (NodeRegistry F) → Option (NodeRegistry F)
  projected peer none = none
  projected peer (some r) = elim (record_of r peer) [
    | none ↦ some r
    | some n ↦ some (hydrated r (hydrate_trust r peer))
  ]

  -- `_project_registry_trust`
  unfoldable pub project_registry_trust : Target F → NodeId → Target F
  project_registry_trust s peer = record s { registry = projected peer s.registry }

module _ {F : Type 0} ⦃fl : Floats F⦄ where
  -- at the active transaction of the caller, if there is one
  abbrev pub fresh_at :
      Target F
      → PairingRequest
      → Outside F
      → Option (PendingPairing F)
      → Result (PairingResponse F) × Target F
  fresh_at s r o (some duplicate) =
      if duplicate.secret == r.proposed_secret
      then (pairing_response s duplicate, s)
      else refuse s already_pending
  fresh_at s r o none =
      if not o.callback
      then refuse s denied
      else begun_for s r o.saved (
          begin s.pairing r.caller_node_id (some r.proposed_secret) (request_material r) "inbound"
            r.intent o.new_id o.token o.replayed o.checked o.started)

  -- the request once the stored grant allows it
  unfoldable pub handle_fresh :
      Target F → PairingRequest → Outside F → Result (PairingResponse F) × Target F
  handle_fresh s r o =
      fresh_at s r o (find_pending_for s.pairing r.caller_node_id (some inbound) o.asked)

  abbrev pub approve_saved :
      Target F → Bool → Result (PeerGrant × PairingManager F) → Result PeerGrant × Target F
  approve_saved s saved (err e) = (err e, s)
  approve_saved s false (ok (g, m)) = (
    err (persistence_error "pairing approval was not durably persisted"),
    record s { pairing = restore_snapshot m (snapshot s.pairing) },
  )
  approve_saved s true (ok (g, m)) =
      after_refresh g
        (refresh_live_grants (project_registry_trust (record s { pairing = m }) g.caller_id))

  unfoldable pub approve_pairing :
      Target F → String → List String → F → Bool → Result PeerGrant × Target F
  approve_pairing s transaction_id permissions now saved =
      if any (λ p. not (p == "read_state")) permissions
      then (err (value_error "pairing approval permissions must be read-only"), s)
      else approve_saved s saved (approve s.pairing transaction_id permissions now)

module _ (check_signature : NodeId → String → ℤ → String → String → Bool) {F : Type 0}
    ⦃fl : Floats F⦄ where
  -- the stored grant of the caller, and the request
  abbrev pub handle_granted :
      Target F
      → PairingRequest
      → Option PeerGrant
      → Result (PairingResponse F) × Target F
      → Result (PairingResponse F) × Target F
  handle_granted s r none fresh = fresh
  handle_granted s r (some g) fresh =
      if not (
        grant_root_continuous check_signature g r.root_public_key r.transport_generation
          r.transport_fingerprint r.transport_proof)
      then refuse s identity_conflict
      else if not (r.intent == "repair")
      then refuse s already_paired
      else fresh

  -- `_handle_pairing_request_locked`
  unfoldable pub handle_pairing_request_locked :
      Target F → PairingRequest → Outside F → Result (PairingResponse F) × Target F
  handle_pairing_request_locked s r o =
      if r.caller_node_id == s.node_id
      then refuse s denied
      else handle_granted s r (get_grant s.pairing r.caller_node_id) (handle_fresh s r o)

  -- `busy`: another request holds the lock
  unfoldable pub handle_pairing_request :
      Target F → PairingRequest → Bool → Outside F → Result (PairingResponse F) × Target F
  handle_pairing_request s r busy o =
      if busy then refuse s already_pending else handle_pairing_request_locked s r o
