-- ===== src/Tests/Trust.antt =====
-- The theorems on saved and restored trust, at one peer.
use expra_connect.Prelude.{
  ℕ, ◌≡◌, refl, String, string_eq, none, some, List, [], ◌∷◌, Result, ok, err, value_error, ℤ, pos,
}
use expra_connect.Identity.{init_node_id}
use expra_connect.Pairing.{outbound, pair, Material, PendingPairing, TrustedPeer, PeerGrant}
use expra_connect.Persistence.{
  Value, is_secret, is_hex, sorted, are_known, peer_grant_to_json, trusted_peer_to_json,
  pending_pairing_to_json, peer_grant_from_json, trusted_peer_from_json, pending_pairing_from_json,
}
use expra_connect.Persistence.RoundTrip.{
  IsStorable, from_one, trust_round_trip, pending_pairing_round_trip,
}
use expra_connect.Persistence.Restored.{restored-IsStorable}
use expra_connect.Tests.Clock.{seconds}

abbrev show : Value ℕ → String
show v = "?"

abbrev float_of : ℤ → Result ℕ
float_of (pos n) = ok n
float_of z = err (value_error "negative")

abbrev secret : String
secret = "00112233445566778899aabbccddeeff00112233445566778899aabbccddeeff"

abbrev material : Material
material = record {
  identity_fingerprint = some "id";
  transport_fingerprint = none;
  root_public_key = some "root";
  transport_generation = some (pos 2);
  transport_proof = none;
}

abbrev both : List String
both = "read_state" ∷ "cleanup" ∷ []

bravo-IsStorable : IsStorable "bravo" secret both material
unfolding init_node_id is_secret is_hex are_known
bravo-IsStorable = record {
  valid_id = refl;
  valid_secret = refl;
  known = refl;
  generation = from_one (pos 2) refl refl;
}

empty-IsStorable : IsStorable "bravo" secret [] material
unfolding are_known
empty-IsStorable = record {
  valid_id = bravo-IsStorable.valid_id;
  valid_secret = bravo-IsStorable.valid_secret;
  known = refl;
  generation = bravo-IsStorable.generation;
}

abbrev grant : PeerGrant
grant = record { caller_id = "bravo"; secret = secret; permissions = both; material = material }

abbrev peer : TrustedPeer
peer = record { peer_id = "bravo"; secret = secret; permissions = both; material = material }

abbrev transaction : PendingPairing ℕ
transaction = record {
  transaction_id = "t1";
  peer_id = "bravo";
  secret = secret;
  expires_at = 310;
  material = material;
  direction = outbound;
  intent = pair;
}

trust_round_trip_example :
    (peer_grant_from_json show float_of (peer_grant_to_json grant)
      ≡ ok (record grant { permissions = sorted both }))
    × (trusted_peer_from_json show float_of (trusted_peer_to_json peer)
        ≡ ok (record peer { permissions = sorted both }))
trust_round_trip_example =
    trust_round_trip show float_of grant peer bravo-IsStorable bravo-IsStorable

pending_pairing_round_trip_example :
    pending_pairing_from_json show float_of (pending_pairing_to_json transaction both)
    ≡ ok (transaction, sorted both)
pending_pairing_round_trip_example =
    pending_pairing_round_trip show float_of transaction both bravo-IsStorable refl

-- what is restored from what `grant` is saved as
restores :
    peer_grant_from_json show float_of (peer_grant_to_json (record grant { permissions = [] }))
    ≡ ok (record grant { permissions = [] })
unfolding sorted
restores =
    (trust_round_trip show float_of (record grant { permissions = [] }) peer empty-IsStorable
      bravo-IsStorable).0

restored-IsStorable_example : IsStorable "bravo" secret [] material
restored-IsStorable_example =
    restored-IsStorable show float_of (peer_grant_to_json (record grant { permissions = [] }))
      (record grant { permissions = [] }) restores
