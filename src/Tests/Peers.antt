-- ===== src/Tests/Peers.antt =====
-- The theorems on retries, nodes, shared capabilities and sessions, at small values.
use expra_connect.Prelude.{
  ℕ, ◌≡◌, ◌≢◌, refl, String, string_eq, option_eq, pair_eq, ℕ_eq, true, false, none, some, [], ◌∷◌,
  arith, ok, err, permission_error, lookup, put, erase, lookup-nil,
}
use text.Mathlib.TextEquality.{eq_iff}
use expra_connect.Identity.{CapabilitySet}
use expra_connect.Cluster.RoleState.{number}
use expra_connect.Connections.{RetryState, PeerFailure, Backoff}
use expra_connect.Connections.Retries.{IsConfigured, Call}
use expra_connect.Nodes.{NodeRegistry, NodeRecord, record_of, new_record, revoked}
use expra_connect.Nodes.Axes.{Event, run, trust_of, revoked_stays}
use expra_connect.Sharing.{
  CapabilityShare, empty_share, register, allow, begin_request, finish_request,
  validate_capability_id, is_blank, is_space,
}
use expra_connect.Sharing
use expra_connect.Sharing.Fence.{
  registers, gives, Steps, here, next, IsFresh, Steps-IsFresh, revoked_gives_nothing,
}
use expra_connect.Sessions.{
  LogicalSession, LogicalSessionRegistry, SessionRequest, authenticate, assert_current,
  validate_generation, valid_token, validated_clock,
}
use expra_connect.Sessions.Bounds.{IsBounded, authenticate-IsBounded}
use expra_connect.Sessions.Fence.{replaced_generation_is_stale}
use expra_connect.Tests.Clock.{seconds}

abbrev idle : RetryState ℕ
idle = record { attempt = 0; next_attempt_at = none; automatic_retry = true; last_failure = none }

abbrev backoff : Backoff ℕ
backoff = record { base_seconds = 1; max_seconds = 60; max_backoff_exponent = some 6 }

abbrev backoff-IsConfigured : IsConfigured backoff
backoff-IsConfigured = record { most = 6; limited = refl; base_fine = refl; max_fine = refl }

abbrev late_call : Call ℕ
late_call = record { failure = PeerFailure.timeout; now = 100; jitter = none; backoff = backoff }

abbrev reader : CapabilitySet
reader = record { can_read_state = true; can_manage = false }

abbrev outcast : NodeRecord ℕ
outcast = record (new_record "carol") { trust = revoked }

abbrev nodes : NodeRegistry ℕ
nodes = record { local_node_id = "alpha"; records = ("carol", outcast) ∷ [] }

outcast_is_known : record_of nodes "carol" ≡ some outcast
unfolding record_of lookup
outcast_is_known = refl

outcast_is_revoked : trust_of nodes "carol" ≡ some revoked
unfolding record_of lookup
outcast_is_revoked = refl

revoked_stays_example :
    trust_of (run nodes (Event.promote "carol" reader ∷ Event.observe "carol" reader ∷ [])) "carol"
    ≡ some revoked
revoked_stays_example =
    revoked_stays nodes (Event.promote "carol" reader ∷ Event.observe "carol" reader ∷ []) "carol"
      (refl, (refl, tt)) outcast_is_revoked

abbrev offers : CapabilityShare
offers = record {
  handlers = ("status", 7) ∷ [];
  allowed = ("bravo", "status" ∷ []) ∷ [];
  grant_generations = (("bravo", "status"), 1) ∷ [];
  next_generation = 1;
}

abbrev withdrawn : CapabilityShare
withdrawn = record offers { allowed = []; grant_generations = [] }

abbrev allowed_again : CapabilityShare
allowed_again = record offers {
  grant_generations = (("bravo", "status"), 2) ∷ [];
  next_generation = 2;
}

empty_share-IsFresh : IsFresh empty_share
empty_share-IsFresh = record {
  bounded = λ p c g h. absurd (ground (arith, lookup-nil {K = String × String} {V = ℕ} (p, c)));
}

abbrev registered : CapabilityShare
registered = record empty_share { handlers = ("status", 7) ∷ [] }

registers_status : register empty_share (some "status") 7 ≡ ok registered
unfolding register validate_capability_id is_blank is_space lookup put
registers_status = refl

allows_status : allow registered "bravo" "status" ≡ ok offers
unfolding allow validate_capability_id is_blank is_space lookup put
allows_status = refl

offered : Steps empty_share offers
offered =
    next (next here (registers (some "status") 7 registers_status))
      (gives "bravo" "status" allows_status)

withdraws : Sharing.revoke offers "bravo" "status" ≡ ok withdrawn
unfolding Sharing.revoke lookup erase validate_capability_id is_blank is_space
withdraws = refl

allows_again : allow withdrawn "bravo" "status" ≡ ok allowed_again
unfolding allow validate_capability_id is_blank is_space lookup put
allows_again = refl

begins : begin_request offers "bravo" "status" ≡ ok (7, 1)
unfolding begin_request lookup validate_capability_id is_blank is_space
begins = refl

-- The grant is withdrawn and given again while the handler runs.
revoked_gives_nothing_example :
    finish_request {R = String} allowed_again "bravo" "status" 7 1 "up"
    ≡ err (permission_error "capability authorization changed during request")
revoked_gives_nothing_example =
    revoked_gives_nothing {R = String} offers offers withdrawn allowed_again "bravo" "status" 7 1
      "up" (Steps-IsFresh empty_share offers offered empty_share-IsFresh) begins here withdraws
      (next here (gives "bravo" "status" allows_again))

abbrev session : LogicalSession ℕ
session = record { owner = "bravo"; active_generation = some "g1"; expires_at = 100; retired = [] }

abbrev sessions : LogicalSessionRegistry ℕ
sessions = record {
  ttl = 60;
  max_sessions = 4;
  max_generations = 4;
  sessions = ("s1", session) ∷ [];
  expirations = (100, "s1") ∷ [];
}

abbrev resumed_sessions : LogicalSessionRegistry ℕ
resumed_sessions = record sessions {
  sessions =
      ("s1", record session { active_generation = some "g2"; retired = some "g1" ∷ [] }) ∷ [];
}

abbrev resume_request : SessionRequest
resume_request = record {
  node_id = "bravo";
  caller_node_id = none;
  session_id = some "s1";
  resume = true;
}

resumes :
    authenticate sessions (λ _. "s2") (number 20) resume_request (some "g2")
    ≡ (ok "s1", resumed_sessions)
unfolding authenticate validate_generation valid_token validated_clock lookup put
resumes = refl

replaced_generation_is_stale_example :
    assert_current resumed_sessions (number 30) "s1" (some "g1") ≢ (ok tt, resumed_sessions)
replaced_generation_is_stale_example =
    replaced_generation_is_stale sessions resumed_sessions resumed_sessions (λ _. "s2") (number 20)
      (number 30) resume_request "s1" "s1" (some "g1") (some "g2") refl resumes
      λ e. ground (arith, (eq_iff "g1" "g2").1)

sessions-IsBounded : IsBounded sessions
sessions-IsBounded = record { bounded = omega arith }

authenticate-IsBounded_example :
    IsBounded (authenticate sessions (λ _. "s2") (number 20) resume_request (some "g2")).1
authenticate-IsBounded_example =
    authenticate-IsBounded sessions (λ _. "s2") (number 20) resume_request (some "g2")
      sessions-IsBounded
