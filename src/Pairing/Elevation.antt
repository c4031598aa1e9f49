-- ===== src/Pairing/Elevation.antt =====
-- Elevations of src/expra_connect/runtime/core.py.
use expra_connect.Prelude.{
  ◌≡◌, refl, sym, ap, Result, err, Dict, if◌then◌else◌, String, string_eq, option_eq, ◌==◌, Bool,
  true, false, Option, none, some, ok, put, Floats, ℤ, arith, lookup-put, same_refl,
}
use expra_connect.Identity.{NodeId}
use expra_connect.Pairing.{PeerGrant, PairingManager, grant_root_continuous, truthy}
use expra_connect.Pairing.Relationship.{get_grant}
use expra_connect.Pairing.Target.{
  Target, PairingRequest, Outside, WirePeerGrant, refused, identity_conflict, already_pending,
  refreshed, with_service, handle_pairing_request, handle_pairing_request_locked,
}
use expra_connect.Pairing.Control.{
  CapabilityElevationRequest, answered, elevated, elevated_peer, handle_elevation_request,
}

module _ {F : Type 0} ⦃fl : Floats F⦄ where
  abbrev elevated_manager : Target F → CapabilityElevationRequest → PeerGrant → PairingManager F
  elevated_manager s r g = record s.pairing {
    grants = put r.caller_node_id (elevated_peer g r) s.pairing.grants;
  }

  -- What an elevation that succeeds leaves: the new permissions, and no root key.
  record IsElevated (s n : Target F) (r : CapabilityElevationRequest) : Type 0 where
    grant : PeerGrant
    is_stored : get_grant n.pairing r.caller_node_id ≡ some grant
    no_root : truthy grant.material.root_public_key ≡ false

  answered_result :
      (s n : Target F) (r : Result (Option (Dict NodeId WirePeerGrant)))
      → answered (with_service s r) ≡ (ok true, n)
      → (n.pairing ≡ s.pairing) × (n.node_id ≡ s.node_id)
  answered_result s n (err e) h = absurd (ground arith)
  answered_result s n (ok live) h = (sym (ap (λ x. x.1.pairing) h), sym (ap (λ x. x.1.node_id) h))

  -- the tests of `elevated` before it writes
  elevated_passes :
      (s n : Target F) (r : CapabilityElevationRequest) (callback saved : Bool) (g : PeerGrant)
      → elevated s r callback saved (some g) ≡ (ok true, n)
      → answered (
          with_service
            (record s { pairing = elevated_manager s r g })
            (refreshed (elevated_manager s r g) s.service))
        ≡ (ok true, n)
  elevated_passes s n r callback saved g h = ground (arith, h)

  elevated_stored :
      (s n : Target F) (r : CapabilityElevationRequest) (callback saved : Bool) (g : PeerGrant)
      → elevated s r callback saved (some g) ≡ (ok true, n)
      → (n.pairing.grants ≡ put r.caller_node_id (elevated_peer g r) s.pairing.grants)
        × (n.node_id ≡ s.node_id)
  elevated_stored s n r callback saved g h =
      let k = answered_result _ n _ (elevated_passes s n r callback saved g h) in
      (ap (λ x. x.grants) k.0, k.1)

  elevated-IsElevated :
      (s n : Target F) (r : CapabilityElevationRequest) (callback saved : Bool)
      (o : Option PeerGrant)
      → elevated s r callback saved o ≡ (ok true, n)
      → IsElevated s n r
  unfolding get_grant truthy
  elevated-IsElevated s n r callback saved none h = absurd (ground arith)
  elevated-IsElevated s n r callback saved (some g) h =
      let k = elevated_stored s n r callback saved g h in
      record {
        grant = elevated_peer g r;
        is_stored = ground (
          arith,
          k.0,
          lookup-put r.caller_node_id r.caller_node_id (elevated_peer g r) s.pairing.grants,
          same_refl r.caller_node_id,
        );
        no_root = refl;
      }

module _ (check_signature : NodeId → String → ℤ → String → String → Bool) {F : Type 0}
    ⦃fl : Floats F⦄ where
  -- After an elevation that succeeds, and as long as the caller's grant is the one that it left, a
  -- pairing request of that caller, which is another node, changes nothing and is answered with an
  -- identity conflict, or with already pending while another request is handled, whatever root,
  -- generation and proof it shows.
  pub elevated_conflicts :
      (s n u : Target F) (e : CapabilityElevationRequest) (r : PairingRequest)
      (callback saved busy : Bool) (o : Outside F)
      → handle_elevation_request s e callback saved ≡ (ok true, n)
      → get_grant u.pairing e.caller_node_id ≡ get_grant n.pairing e.caller_node_id
      → r.caller_node_id ≡ e.caller_node_id
      → (r.caller_node_id == u.node_id) ≡ false
      → handle_pairing_request check_signature u r busy o
        ≡ (ok (refused (if busy then already_pending else identity_conflict)), u)
  unfolding handle_elevation_request handle_pairing_request handle_pairing_request_locked
      grant_root_continuous
  elevated_conflicts s n u e r callback saved true o h kept same other = refl
  elevated_conflicts s n u e r callback saved false o h kept same other =
      let k = elevated-IsElevated s n e callback saved (get_grant s.pairing e.caller_node_id) h in
      ground (arith, k.is_stored, k.no_root, kept, same, other)
