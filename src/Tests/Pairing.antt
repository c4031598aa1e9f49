-- ===== src/Tests/Pairing.antt =====
-- The theorems on pairing, at two nodes that know each other.
use expra_connect.Prelude.{
  ℕ, ◌≡◌, ◌⊎◌, ◌↔◌, refl, String, string_eq, option_eq, int_eq, pair_eq, ◌==◌, Bool, true, false,
  none, some, [], ◌∷◌, ok, lookup, put, ℤ, pos,
}
use expra_connect.Identity.{NodeId}
use expra_connect.Pairing.{
  outbound, inbound, pair, Material, PendingPairing, TrustedPeer, PeerGrant, PairingManager,
  outbound_trusted, init_pairing, begin, direction_of, intent_of, find_pending, find_pending_for,
  active, approve, confirm, revoke_trusted, revoke_grant, truthy, is_auth_broken, is_read_only,
}
use expra_connect.Pairing.Relationship.{
  CandidateMaterial, get_trusted, get_grant, classify_trusted_candidate,
}
use expra_connect.Pairing.Calls.{Call, begins, confirms, call}
use expra_connect.Pairing.Trust.{IsConsumed, trust_needs_transaction}
use expra_connect.Pairing.Single.{IsSingle, here, begin_call, init-IsSingle, Calls-IsSingle}
use expra_connect.Pairing.Continuity.{Continues, classify_trusted_candidate_iff}
use expra_connect.Pairing.Directions.{revocations_are_directed}
use expra_connect.Pairing.Target.{
  Target, PairingRequest, Outside, refused, approved, denied, identity_conflict,
  handle_pairing_request, handle_pairing_request_locked, handle_fresh, pairing_response,
  approve_pairing, wire_grants, has_other_permission, refresh_live_grants, project_registry_trust,
}
use expra_connect.Pairing.Control.{
  PairingControlRequest, CapabilityElevationRequest, handle_pairing_control,
  handle_elevation_request,
}
use expra_connect.Pairing.Requests.{Continuous, Agreed, approved_only_if}
use expra_connect.Pairing.Refusals.{IsUntouched, refused-IsUntouched}
use expra_connect.Pairing.Confirmation.{IsGranted, confirmation-IsGranted}
use expra_connect.Pairing.Elevation.{elevated_conflicts}
use expra_connect.Tests.Clock.{seconds}

-- a signature is right if it is this text
abbrev signed : NodeId → String → ℤ → String → String → Bool
signed node_id root generation fingerprint proof = proof == "signed"

abbrev material : Material
material = record {
  identity_fingerprint = some "id";
  transport_fingerprint = some "tls";
  root_public_key = some "root";
  transport_generation = some (pos 1);
  transport_proof = some "signed";
}

abbrev transaction : PendingPairing ℕ
transaction = record {
  transaction_id = "t1";
  peer_id = "bravo";
  secret = "s";
  expires_at = 310;
  material = material;
  direction = inbound;
  intent = pair;
}

abbrev bravo_grant : PeerGrant
bravo_grant = record {
  caller_id = "bravo";
  secret = "s";
  permissions = "read_state" ∷ [];
  material = material;
}

abbrev bravo_trust : TrustedPeer
bravo_trust = record {
  peer_id = "bravo";
  secret = "s";
  permissions = "read_state" ∷ [];
  material = material;
}

abbrev granted : PairingManager ℕ
granted = record {
  local_id = "alpha";
  ttl = 300;
  pending = ("t1", transaction) ∷ [];
  trusted = [];
  grants = ("bravo", bravo_grant) ∷ [];
  auth_broken = [];
}

abbrev trusting : PairingManager ℕ
trusting = record granted { trusted = ("bravo", bravo_trust) ∷ [] }

confirmed_bravo : lookup "bravo" (call granted (confirms "t1" 20)).trusted ≡ some bravo_trust
unfolding call confirm active lookup put
confirmed_bravo = refl

trust_needs_transaction_example :
    (lookup "bravo" granted.trusted ≡ some bravo_trust)
    ⊎ IsConsumed granted (call granted (confirms "t1" 20)) (confirms "t1" 20) "bravo" bravo_trust
trust_needs_transaction_example =
    trust_needs_transaction granted (confirms "t1" 20) "bravo" bravo_trust confirmed_bravo

abbrev first_begin : Call ℕ
first_begin = begins "bravo" none material "outbound" "pair" "t1" "s" 10 10 10

Calls-IsSingle_example : IsSingle (call (init_pairing "alpha" 300) first_begin) 10
Calls-IsSingle_example =
    Calls-IsSingle (init_pairing "alpha" 300) 5 (call (init_pairing "alpha" 300) first_begin) 10
      refl (init-IsSingle "alpha" 300 5)
      (begin_call "bravo" none material "outbound" "pair" "t1" "s" 10 10 10 here refl refl)

abbrev rotated : CandidateMaterial
rotated = record {
  root_public_key = some "root";
  transport_fingerprint = some "tls2";
  transport_generation = some (pos 2);
  transport_proof = some "signed";
}

known_bravo : lookup "bravo" trusting.trusted ≡ some bravo_trust
unfolding lookup
known_bravo = refl

classify_trusted_candidate_iff_example :
    (classify_trusted_candidate signed trusting "bravo" rotated 20 ≡ outbound_trusted)
    ↔ ((is_auth_broken trusting "bravo" ≡ false) × Continues signed "bravo" bravo_trust rotated)
classify_trusted_candidate_iff_example =
    classify_trusted_candidate_iff signed trusting "bravo" bravo_trust rotated 20 known_bravo

revocations_are_directed_example :
    ((get_trusted (revoke_trusted trusting "bravo") "carol" ≡ get_trusted trusting "carol")
      × (get_grant (revoke_trusted trusting "bravo") "carol" ≡ get_grant trusting "carol")
      × (find_pending_for (revoke_trusted trusting "bravo") "carol" (some outbound) 20
          ≡ find_pending_for trusting "carol" (some outbound) 20))
    × ((get_grant (revoke_grant trusting "bravo") "carol" ≡ get_grant trusting "carol")
        × (get_trusted (revoke_grant trusting "bravo") "carol" ≡ get_trusted trusting "carol")
        × (find_pending_for (revoke_grant trusting "bravo") "carol" (some outbound) 20
            ≡ find_pending_for trusting "carol" (some outbound) 20))
revocations_are_directed_example = revocations_are_directed trusting "bravo" "carol" outbound 20

abbrev fresh : Target ℕ
fresh = record {
  node_id = "alpha";
  pairing = init_pairing "alpha" 300;
  pending_permissions = [];
  registry = none;
  service = some [];
}

abbrev bravo_asks : PairingRequest
bravo_asks = record {
  caller_node_id = "bravo";
  identity_fingerprint = "id";
  transport_fingerprint = "tls";
  proposed_secret = "s";
  permissions = "read_state" ∷ [];
  root_public_key = some "root";
  transport_generation = some (pos 1);
  transport_proof = some "signed";
  intent = "pair";
}

abbrev agrees : Outside ℕ
agrees = record {
  callback = true;
  asked = 10;
  replayed = 10;
  checked = 10;
  started = 10;
  new_id = "t1";
  token = "x";
  saved = true;
}

bravo_approved :
    (handle_pairing_request signed fresh bravo_asks false agrees).0
    ≡ ok (approved transaction ("read_state" ∷ []))
unfolding handle_pairing_request handle_pairing_request_locked handle_fresh get_grant init_pairing
    find_pending_for begin direction_of intent_of find_pending pairing_response lookup put truthy
bravo_approved = refl

approved_only_if_example :
    (false ≡ false)
    × (false ≡ false)
    × Continuous signed fresh bravo_asks
    × Agreed fresh bravo_asks agrees transaction
approved_only_if_example =
    approved_only_if signed fresh bravo_asks false agrees transaction ("read_state" ∷ [])
      bravo_approved

abbrev refuses : Outside ℕ
refuses = record agrees { callback = false }

bravo_denied :
    (handle_pairing_request signed fresh bravo_asks false refuses).0 ≡ ok (refused denied)
unfolding handle_pairing_request handle_pairing_request_locked handle_fresh get_grant init_pairing
    find_pending_for lookup
bravo_denied = refl

no_transaction : lookup "t1" fresh.pairing.pending ≡ none
unfolding lookup init_pairing
no_transaction = refl

no_permissions : lookup "t1" fresh.pending_permissions ≡ none
unfolding lookup
no_permissions = refl

refused-IsUntouched_example :
    IsUntouched fresh (handle_pairing_request signed fresh bravo_asks false refuses).1 "t1" "bravo"
refused-IsUntouched_example =
    refused-IsUntouched signed fresh bravo_asks false refuses denied "t1" "bravo" refl
      no_transaction no_permissions bravo_denied

-- `fresh` with the transaction
abbrev waiting : Target ℕ
waiting = record fresh {
  pairing = record {
    local_id = "alpha";
    ttl = 300;
    pending = ("t1", transaction) ∷ [];
    trusted = [];
    grants = [];
    auth_broken = [];
  };
  pending_permissions = ("t1", "read_state" ∷ []) ∷ [];
}

abbrev confirms_t1 : PairingControlRequest ℕ
confirms_t1 = record {
  operation = "pair_confirm";
  transaction_id = "t1";
  caller_node_id = "bravo";
  identity_fingerprint = "id";
  transport_fingerprint = "tls";
  secret = "s";
  permissions = "read_state" ∷ [];
  expires_at = 310;
}

confirms_twice :
    handle_pairing_control waiting confirms_t1 20 true true
    ≡ (true, (handle_pairing_control waiting confirms_t1 20 true true).1)
unfolding handle_pairing_control approve_pairing approve active is_read_only lookup put
    refresh_live_grants project_registry_trust wire_grants has_other_permission
confirms_twice = refl

confirmation-IsGranted_example :
    IsGranted waiting (handle_pairing_control waiting confirms_t1 20 true true).1 confirms_t1 20
confirmation-IsGranted_example =
    confirmation-IsGranted waiting (handle_pairing_control waiting confirms_t1 20 true true).1
      confirms_t1 20 true true refl confirms_twice

abbrev elevates : CapabilityElevationRequest
elevates = record {
  caller_node_id = "bravo";
  identity_fingerprint = "id";
  transport_fingerprint = "tls";
  current_secret = "s";
  proposed_secret = "s2";
  permissions = "read_state" ∷ "cleanup" ∷ [];
}

abbrev with_bravo : Target ℕ
with_bravo = record fresh { pairing = granted }

abbrev after_elevation : Target ℕ
after_elevation = (handle_elevation_request with_bravo elevates true true).1

elevates_bravo : handle_elevation_request with_bravo elevates true true ≡ (ok true, after_elevation)
unfolding handle_elevation_request get_grant lookup put wire_grants has_other_permission
elevates_bravo = refl

other_node : ("bravo" == after_elevation.node_id) ≡ false
unfolding handle_elevation_request get_grant lookup put wire_grants has_other_permission
other_node = refl

elevated_conflicts_example :
    handle_pairing_request signed after_elevation
      (record bravo_asks { intent = "repair" })
      false
      agrees
    ≡ (ok (refused identity_conflict), after_elevation)
elevated_conflicts_example =
    elevated_conflicts signed with_bravo after_elevation after_elevation elevates
      (record bravo_asks { intent = "repair" }) true true false agrees elevates_bravo refl refl
      other_node
