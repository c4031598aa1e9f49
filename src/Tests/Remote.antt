-- ===== src/Tests/Remote.antt =====
-- The theorems on remote requests and on surfaces, at concrete values.
use expra_connect.Prelude.{
  ℕ, ◌-◌, ◌≡◌, ◌≢◌, refl, string_eq, pair_eq, option_eq, ℕ_eq, true, false, none, some, [], ◌∷◌, ok,
  err, remote_authorization_error, permission_error, lookup, arith,
}
use expra_connect.Identity.{PermissionSet, permits}
use expra_connect.Remote.Replay.{
  ReplayCache, init_replay, prune_seen, record_seen, check_and_record,
}
use expra_connect.Remote.Replay.Rejected.{IsSound, request, checks, replay_is_rejected}
use expra_connect.Remote.Idempotency.{
  IdempotencyCache, owns, waits, claimed, claim, prune_entries, settle,
}
use expra_connect.Remote.Idempotency.Once.{here, one_run_owns, settled_outcome_is_reused}
use expra_connect.Remote.Service.{
  ServiceGrant, Fence, RemoteService, RoleFence, ServiceRequest, required_permission,
  has_capability, verify_role_fence, update_cluster_fence, grant_snapshot, has_expired,
  assert_grant_snapshot_current, update_cluster_capability_grants, cluster_grant, authorize_request,
}
use expra_connect.Remote.Service.Current as Current
use expra_connect.Remote.Service.Current.{
  IsAuthorized, updated_snapshot_is_stale, authorize_request-IsAuthorized,
}
use expra_connect.Remote.Service.Fencing as Fencing
use expra_connect.Remote.Service.Fencing.{IsAt, old_epoch_is_refused}
use expra_connect.Surfaces.{SurfaceRegistry, read, authorized_handler, access_of, revoke_source}
use expra_connect.Surfaces.Revoked as Revoked
use expra_connect.Surfaces.Revoked.{revoked_source_is_refused}
use expra_connect.Tests.Clock.{seconds}

abbrev minus : ℕ → ℕ → ℕ
minus a b = a - b

abbrev empty_cache : ReplayCache ℕ
empty_cache = init_replay 60 4

empty-IsSound : IsSound empty_cache
unfolding init_replay lookup
empty-IsSound = record {
  requests = λ k. record { indexed = refl };
  request_ids = λ k. record { indexed = refl };
}

first_is_fresh : (check_and_record minus empty_cache "bravo" "r1" "n1" 100).0 ≡ true
unfolding check_and_record init_replay prune_seen record_seen lookup
first_is_fresh = refl

replay_is_rejected_example :
    (check_and_record minus
      (checks minus
        (check_and_record minus empty_cache "bravo" "r1" "n1" 100).1
        (request "carol" "r2" "n2" 110 ∷ []))
      "bravo"
      "r1"
      "n1"
      120).0
    ≡ false
unfolding init_replay
replay_is_rejected_example =
    replay_is_rejected minus empty_cache "bravo" "r1" "n1" 100 120
      (request "carol" "r2" "n2" 110 ∷ []) empty-IsSound first_is_fresh (refl, tt) refl

abbrev no_results : IdempotencyCache ℕ ℕ
no_results = record { ttl = 300; max_entries = 8; entries = [] }

owns_r1 : (claim no_results ("bravo", "r1") "fp" 10).0 ≡ ok owns
unfolding claim prune_entries lookup
owns_r1 = refl

one_run_owns_example :
    (claim (claim no_results ("bravo", "r1") "fp" 10).1 ("bravo", "r1") "fp" 20).0
    ≡ ok (waits (claimed no_results "fp" 10))
one_run_owns_example =
    one_run_owns no_results (claim no_results ("bravo", "r1") "fp" 10).1 ("bravo", "r1") "fp" "fp"
      10 20 owns_r1 here

settled_outcome_is_reused_example :
    (claim
      (settle (claim no_results ("bravo", "r1") "fp" 10).1 ("bravo", "r1") (ok 7) none).1
      ("bravo", "r1")
      "fp"
      20).0
    ≡ ok (waits (record (claimed no_results "fp" 10) { outcome = some (ok 7) }))
settled_outcome_is_reused_example =
    settled_outcome_is_reused no_results (claim no_results ("bravo", "r1") "fp" 10).1
      (settle (claim no_results ("bravo", "r1") "fp" 10).1 ("bravo", "r1") (ok 7) none).1
      ("bravo", "r1") "fp" 10 20 (ok 7) none owns_r1 here here refl

abbrev reading : PermissionSet
reading = record {
  read_state = true;
  remote_management = false;
  process_termination = false;
  process_force_termination = false;
  cleanup = false;
}

abbrev bravo_grant : ServiceGrant ℕ
bravo_grant = record {
  caller_node_id = "bravo";
  secret = "s";
  permissions = reading;
  expires_at = some 500;
}

abbrev service : RemoteService ℕ
service = record {
  node_id = "alpha";
  secret = "own";
  capabilities = record { can_read_state = true; can_manage = true };
  own_permissions = reading;
  grant_mode = true;
  grants = ("bravo", bravo_grant) ∷ [];
  cluster_capability_grants = [];
  grant_version = 3;
  fence = record { cluster_id = some "c"; coordinator_epoch = some 4; fencing_token = some "t" };
}

snapshot_3 : grant_snapshot service (some "bravo") 20 ≡ ok (some bravo_grant, 3)
unfolding grant_snapshot has_expired lookup
snapshot_3 = refl

updated_snapshot_is_stale_example :
    assert_grant_snapshot_current
      (update_cluster_capability_grants service [])
      (some bravo_grant)
      3
      30
    ≡ err (remote_authorization_error "caller permission changed")
updated_snapshot_is_stale_example =
    updated_snapshot_is_stale service (update_cluster_capability_grants service [])
      (update_cluster_capability_grants service []) (some "bravo") 20 30 (some bravo_grant) 3
      snapshot_3 (Current.of_cluster [] refl) Current.here

abbrev bravo_reads : ServiceRequest
bravo_reads = record { caller_node_id = some "bravo"; op = "hello" }

authorized_bravo : authorize_request service bravo_reads (some bravo_grant) 20 none ≡ ok none
unfolding authorize_request required_permission has_capability cluster_grant permits
authorized_bravo = refl

authorize_request-IsAuthorized_example : IsAuthorized service bravo_reads (some bravo_grant) 20 none
authorize_request-IsAuthorized_example =
    authorize_request-IsAuthorized service bravo_reads (some bravo_grant) 20 none none
      authorized_bravo

abbrev at_5 : Fence
at_5 = record { cluster_id = some "c"; coordinator_epoch = some 5; fencing_token = some "u" }

installs_5 : update_cluster_fence service.fence "c" 5 "u" ≡ ok at_5
unfolding update_cluster_fence
installs_5 = refl

abbrev of_epoch_3 : RoleFence
of_epoch_3 = record { cluster_id = some "c"; epoch = some 3; fencing_token = some "t" }

old_epoch_is_refused_example : verify_role_fence at_5 of_epoch_3 ≢ ok tt
old_epoch_is_refused_example =
    old_epoch_is_refused service.fence at_5 "c" 4 3 "t" of_epoch_3
      (record { cluster = refl; at_epoch = refl; with_token = refl })
      (Fencing.next 5 "u" Fencing.here installs_5) refl (omega arith)

abbrev surfaces : SurfaceRegistry ℕ
surfaces = record {
  definitions =
      ("s1", record { surface_id = "s1"; read_handler = 1; review_handler = none; actions = [] })
      ∷ [];
  peer_grants =
      (
        ("bravo", ("s1", read)),
        record {
          source = "bravo";
          surface_id = "s1";
          access = read;
          expires_at = none;
          cluster = false;
        },
      )
      ∷ [];
  cluster_grants = [];
}

read_is_read : access_of "read" ≡ ok read
unfolding access_of
read_is_read = refl

revoked_source_is_refused_example :
    authorized_handler (revoke_source surfaces "bravo") "bravo" "s1" "read" none ("bravo" ∷ []) 20
    ≡ err (permission_error "surface access is not authorized")
revoked_source_is_refused_example =
    revoked_source_is_refused surfaces (revoke_source surfaces "bravo") "bravo" "s1" "read" none
      ("bravo" ∷ []) 20 read Revoked.here read_is_read (refl, tt)
