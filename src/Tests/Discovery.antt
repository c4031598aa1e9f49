-- ===== src/Tests/Discovery.antt =====
-- The theorems on discovery and on saved clusters, at small values.
use expra_connect.Prelude.{
  pos, ℕ, ◌-◌, ◌≡◌, ◌≢◌, refl, String, string_eq, option_eq, pair_eq, ℕ_eq, true, false, Option,
  none, some, [], ◌∷◌, arith, ok, lookup, put, lookup-nil,
}
use expra_connect.Identity.{init_node_id}
use expra_connect.Cluster.Models.{init_epoch}
use expra_connect.Cluster.RoleState.{index_assignments}
use expra_connect.Cluster.Operations.{Cluster}
use expra_connect.Cluster.Invites
use expra_connect.Cluster.Persisted.{
  ClusterState, local_assignment, is_active_coordinator, consume_invite, from_state, init_cluster,
  create_local, by_hash,
}
use expra_connect.Cluster.Persisted.Restored.{restart_keeps_spent}
use expra_connect.Discovery.{
  DiscoveryCandidate, whole, DiscoveryRegistry, IpAddress, preferred_address, first_least, expire,
  erase_keys,
}
use expra_connect.Discovery.Endpoints.{
  EndpointCandidate, configured, vpn, endpoint_rank, source_rank, ltb_rank, first_ranked,
  preferred_endpoint,
}
use expra_connect.Discovery.Live.{HoldsPeers}
use expra_connect.Tests.{leader, first_epoch}
use expra_connect.Tests.Clock.{seconds}
use expra_connect.Tests.Invites.{invite, digest_of}

abbrev saved : ClusterState ℕ
saved = record {
  local_node_id = "alpha";
  cluster_id = "c1";
  role_assignments = leader ∷ [];
  coordinator_epoch = some first_epoch;
  active_invites = invite ∷ [];
  join_admissions = [];
  used_invites = [];
  promotion_epochs = [];
  capability_grants = [];
}

abbrev saved_later : ClusterState ℕ
saved_later = record saved { active_invites = []; used_invites = "t1" ∷ [] }

consumes : consume_invite digest_of saved "t1" 20 ≡ (ok invite, saved_later)
unfolding consume_invite is_active_coordinator local_assignment
consumes = refl

abbrev restarted : Cluster ℕ
restarted = record {
  local_id = "alpha";
  cluster_id = "c1";
  epoch = first_epoch;
  assignments = ("alpha", leader) ∷ [];
  is_online = ("alpha", true) ∷ [];
  invites = [];
  join_admissions = [];
  used_invites = "t1" ∷ [];
  promotion_epochs = [];
  capability_grants = [];
}

restarts : from_state "alpha" saved_later "c9" "token-9" 40 ≡ ok restarted
unfolding from_state init_cluster create_local init_node_id init_epoch local_assignment by_hash
    index_assignments put
restarts = refl

restart_keeps_spent_example :
    Invites.consume_invite digest_of restarted "t1" "delta" 50 50 false ≢ (ok invite, restarted)
restart_keeps_spent_example =
    restart_keeps_spent digest_of "alpha" "delta" saved_later "c9" "token-9" "t1" 40 50 50 restarted
      restarted invite restarts refl

abbrev parse : String → Option IpAddress
parse address = some (record { is_loopback = false; ipv4 = some 0x0a000001 })

prefers : preferred_address parse ("10.0.0.1" ∷ []) ≡ ok "10.0.0.1"
unfolding preferred_address first_least
prefers = refl

abbrev peer : DiscoveryCandidate ℕ
peer = record { stable_id = "bravo"; addresses = "10.0.0.1" ∷ []; port = whole 9000; seen_at = 100 }

abbrev found : DiscoveryRegistry ℕ
found = record { ttl = 60; self_id = some "alpha"; items = ("bravo", peer) ∷ [] }

still_there : lookup "bravo" (expire (λ a b. a - b) found 150).1.items ≡ some peer
unfolding expire erase_keys lookup
still_there = refl

abbrev nothing_found : DiscoveryRegistry ℕ
nothing_found = record found { items = [] }

nothing_found-HoldsPeers : HoldsPeers nothing_found
nothing_found-HoldsPeers = record {
  peers = λ k c e. absurd (ground (arith, lookup-nil {K = String} {V = DiscoveryCandidate ℕ} k));
}

abbrev by_hand : EndpointCandidate ℕ
by_hand = record {
  address = "10.0.0.1";
  port = 9000;
  source = configured;
  validation = "validated";
  priority = pos 0;
  last_success = none;
  last_failure = none;
}

abbrev by_vpn : EndpointCandidate ℕ
by_vpn = record by_hand { source = vpn; last_success = some 50 }

chooses : preferred_endpoint (by_hand ∷ by_vpn ∷ []) ≡ ok by_vpn
unfolding preferred_endpoint first_ranked ltb_rank endpoint_rank source_rank
chooses = refl
