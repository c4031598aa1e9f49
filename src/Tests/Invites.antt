-- ===== src/Tests/Invites.antt =====
-- The theorem on invites, at a cluster of one node.
use expra_connect.Prelude.{ℕ, String, string_eq, option_eq, pair_eq, ℕ_eq, true, some, [], ◌∷◌}
use expra_connect.Cluster.Models.{InviteRecord, assignment, worker_only}
use expra_connect.Cluster.Roles
use expra_connect.Cluster.Operations.{Cluster}
use expra_connect.Tests.{leader, first_epoch}
use expra_connect.Tests.Clock.{seconds}

abbrev pub digest_of : String → String
digest_of token = token

abbrev pub invite : InviteRecord ℕ
invite = record {
  token_hash = "t1";
  target_node_id = "delta";
  expires_at = 300;
  token = "t1";
  cluster_id = "c1";
  coordinator_id = "alpha";
  epoch = 1;
  fencing_token = "token-1";
}

abbrev inviting : Cluster ℕ
inviting = record {
  local_id = "alpha";
  cluster_id = "c1";
  epoch = first_epoch;
  assignments = ("alpha", leader) ∷ [];
  is_online = ("alpha", true) ∷ [];
  invites = ("t1", invite) ∷ [];
  join_admissions = [];
  used_invites = [];
  promotion_epochs = [];
  capability_grants = [];
}

abbrev admitted : Cluster ℕ
admitted = record inviting {
  assignments = ("alpha", leader) ∷ ("delta", assignment worker_only (some "delta")) ∷ [];
  is_online = ("alpha", true) ∷ ("delta", true) ∷ [];
  invites = [];
  join_admissions = ("t1", record invite { token = "" }) ∷ [];
  used_invites = "t1" ∷ [];
}
