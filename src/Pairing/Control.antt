-- ===== src/Pairing/Control.antt =====
-- The handlers of src/expra_connect/runtime/core.py for a pairing that is confirmed or aborted, for
-- an elevation, and for the transactions that expire. Each is one step; the source takes other locks
-- for requests than for confirmations, and none for an elevation.
use expra_connect.Prelude.{
  String, string_eq, option_eq, ◌==◌, Bool, true, false, not, ◌&&◌, ◌||◌, Option, none, some,
  Result, ok, err, List, lookup, put, erase, filter, member, if◌then◌else◌, Floats, ltb,
}
use expra_connect.Identity.{NodeId}
use expra_connect.Pairing.{PendingPairing, PeerGrant, abort, prune_expired}
use expra_connect.Pairing.Relationship.{get_grant, snapshot, restore_snapshot}
use expra_connect.Pairing.Target.{
  Target, approve_pairing, same_permissions, refreshed, with_service,
}

pub record PairingControlRequest (F : Type 0) : Type 0 where
  pub operation : String
  pub transaction_id : String
  pub caller_node_id : NodeId
  pub identity_fingerprint : String
  pub transport_fingerprint : String
  pub secret : String
  pub permissions : List String
  pub expires_at : F

pub record CapabilityElevationRequest : Type 0 where
  pub caller_node_id : NodeId
  pub identity_fingerprint : String
  pub transport_fingerprint : String
  pub current_secret : String
  pub proposed_secret : String
  pub permissions : List String

-- The grant that takes the place of `g`: the code gives no root key, generation or proof.
abbrev pub elevated_peer : PeerGrant → CapabilityElevationRequest → PeerGrant
elevated_peer g r = record {
  caller_id = g.caller_id;
  secret = g.secret;
  permissions = r.permissions;
  material = record {
    identity_fingerprint = g.material.identity_fingerprint;
    transport_fingerprint = g.material.transport_fingerprint;
    root_public_key = none;
    transport_generation = none;
    transport_proof = none;
  };
}

module _ {F : Type 0} ⦃fl : Floats F⦄ where
  -- the request presents what the transaction is bound to
  abbrev pub is_bound : PendingPairing F → PairingControlRequest F → Bool
  is_bound t r =
      t.peer_id == r.caller_node_id
      && t.material.identity_fingerprint == some r.identity_fingerprint
      && t.material.transport_fingerprint == some r.transport_fingerprint
      && t.secret == r.secret
      && fl.eq t.expires_at r.expires_at

  abbrev pub ended : Target F → String → Target F
  ended s i = record s {
    pairing = abort s.pairing i;
    pending_permissions = erase i s.pending_permissions;
  }

  abbrev pub confirmed :
      Target F → String → List String → Bool → Result PeerGrant × Target F → Bool × Target F
  confirmed s i permissions saved (err e, n) = (false, n)
  confirmed s i permissions true (ok g, n) = (true, ended n i)
  confirmed s i permissions false (ok g, n) = (
    false,
    record n {
      pairing = restore_snapshot n.pairing (snapshot s.pairing);
      pending_permissions = put i permissions (erase i n.pending_permissions);
    },
  )

  abbrev pub controlled :
      Target F
      → PairingControlRequest F
      → F
      → Bool
      → Bool
      → Option (PendingPairing F)
      → Option (List String)
      → Bool × Target F
  controlled s r now first second none permissions = (false, s)
  controlled s r now first second (some t) none = (false, s)
  controlled s r now first second (some t) (some permissions) =
      if not (same_permissions permissions r.permissions)
      then (false, s)
      else if not (is_bound t r)
      then (false, s)
      else if r.operation == "pair_abort"
      then (first, ended s r.transaction_id)
      else if not (r.operation == "pair_confirm")
      then (false, s)
      else confirmed s r.transaction_id permissions second
          (approve_pairing s r.transaction_id permissions now first)

  -- `_handle_pairing_control_locked`, where the state is saved or not a `first` and a `second` time
  unfoldable pub handle_pairing_control :
      Target F → PairingControlRequest F → F → Bool → Bool → Bool × Target F
  handle_pairing_control s r now first second =
      controlled s r now first second (lookup r.transaction_id s.pairing.pending)
        (lookup r.transaction_id s.pending_permissions)

  -- True, unless the service cannot be given the grants, which raises
  abbrev pub answered : Result (Unit {0}) × Target F → Result Bool × Target F
  answered (err e, s) = (err e, s)
  answered (ok u, s) = (ok true, s)

  abbrev pub elevated :
      Target F
      → CapabilityElevationRequest
      → Bool
      → Bool
      → Option PeerGrant
      → Result Bool × Target F
  elevated s r callback saved none = (ok false, s)
  elevated s r callback saved (some g) =
      let m = s.pairing in
      let new = elevated_peer g r in
      let stored = record m { grants = put r.caller_node_id new m.grants } in
      if not (g.secret == r.current_secret)
        || not (g.material.identity_fingerprint == some r.identity_fingerprint)
        || not (g.material.transport_fingerprint == some r.transport_fingerprint)
      then (ok false, s)
      else if not callback
      then (ok false, s)
      else if not saved
      then (
        ok false,
        record s { pairing = record stored { grants = put r.caller_node_id g stored.grants } },
      )
      else answered (with_service (record s { pairing = stored }) (refreshed stored s.service))

  -- `_handle_elevation_request`, for secrets that are ASCII; `callback`: it is set and answers yes
  unfoldable pub handle_elevation_request :
      Target F → CapabilityElevationRequest → Bool → Bool → Result Bool × Target F
  handle_elevation_request s r callback saved =
      elevated s r callback saved (get_grant s.pairing r.caller_node_id)

  -- one round of `_expiry_loop`, for the pairing
  unfoldable pub reap : Target F → F → Target F
  reap s now =
      let (removed, m) = prune_expired s.pairing now in
      if ltb 0 removed
      then record s {
        pairing = m;
        pending_permissions = filter (λ p. member p.0 m.pending) s.pending_permissions;
      }
      else record s { pairing = m }
