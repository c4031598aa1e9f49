-- ===== src/Cluster/Persisted/Restored.antt =====
-- Invites of the saved state of src/expra_connect/cluster/operations.py, and restarts.
use expra_connect.Prelude.{
  ◌≡◌, ◌≢◌, refl, String, string_eq, option_eq, ◌==◌, true, false, Option, none, some, ok, arith,
  contains, contains-insert, Floats, Bool-cases, inl, inr, find?, find?_holds,
}
use text.Mathlib.TextEquality.{eq_iff}
use expra_connect.Identity.{NodeId}
use expra_connect.Cluster.Models.{InviteRecord, CoordinatorEpoch}
use expra_connect.Cluster.Operations.{Cluster}
use expra_connect.Cluster.Invites
use expra_connect.Cluster.Invites.Spent.{spent_refused}
use expra_connect.Cluster.Persisted.{
  ClusterState, is_active_coordinator, consume_invite, consume_found, restore, from_state,
}

module _ {F : Type 0} ⦃fl : Floats F⦄ where
  restore_used :
      (n : NodeId) (s : ClusterState F) (cluster_id token : String) (now : F)
      (o : Option (CoordinatorEpoch F)) (c : Cluster F)
      → restore n s cluster_id token now o ≡ ok c
      → c.used_invites ≡ s.used_invites
  restore_used n s cluster_id token now none c e = absurd (ground arith)
  restore_used n s cluster_id token now (some x) c e = ground arith

  from_state_used :
      (n : NodeId) (s : ClusterState F) (cluster_id token : String) (now : F) (c : Cluster F)
      → from_state n s cluster_id token now ≡ ok c
      → c.used_invites ≡ s.used_invites
  unfolding from_state
  from_state_used n s cluster_id token now c e =
      restore_used n s cluster_id token now s.coordinator_epoch c (ground arith)

  -- An invite that is marked used in a saved state is not consumed, without `allow_retry`, by the
  -- cluster that `from_state` makes of the state.
  pub restart_keeps_spent :
      (hash_invite : String → String) (n m : NodeId) (s : ClusterState F)
      (cluster_id random token : String) (now current clock : F) (c d : Cluster F)
      (i : InviteRecord F)
      → from_state n s cluster_id random now ≡ ok c
      → contains (hash_invite token) s.used_invites ≡ true
      → Invites.consume_invite hash_invite c token m current clock false ≢ (ok i, d)
  restart_keeps_spent hash_invite n m s cluster_id random token now current clock c d i e u =
      spent_refused hash_invite c d token m current clock i
        (record { used = ground (arith, from_state_used n s cluster_id random now c e, u) })

  -- What a consumption that returns has checked and changed.
  pub record IsConsumed (s t : ClusterState F) (digest : String) (current : F) (i : InviteRecord F)
      : Type 0 where
    pub by_leader : is_active_coordinator s ≡ true
    pub listed : find? (λ j. j.token_hash == digest) s.active_invites ≡ some i
    pub hashed : i.token_hash ≡ digest
    pub in_time : fl.le i.expires_at current ≡ false
    pub marked : contains digest t.used_invites ≡ true
    pub kept : (g : String) → contains g s.used_invites ≡ true → contains g t.used_invites ≡ true
    pub same_roles : t.role_assignments ≡ s.role_assignments

  consume_found-IsConsumed :
      (s t : ClusterState F) (digest : String) (current : F) (o : Option (InviteRecord F))
      (i : InviteRecord F)
      → is_active_coordinator s ≡ true
      → find? (λ j. j.token_hash == digest) s.active_invites ≡ o
      → consume_found s digest current o ≡ (ok i, t)
      → IsConsumed s t digest current i
  consume_found-IsConsumed s t digest current none i a f e = absurd (ground arith)
  consume_found-IsConsumed s t digest current (some j) i a f e =
      elim (Bool-cases (fl.le j.expires_at current)) [
        | inl late ↦ absurd (ground arith)
        | inr live ↦
            let same : j ≡ i = ground arith in
            record {
              by_leader = a;
              listed = ground arith;
              hashed =
                  (eq_iff i.token_hash digest).0
                    (find?_holds (λ x. x.token_hash == digest) s.active_invites i (ground arith));
              in_time = ground arith;
              marked =
                  ground
                    (arith, contains-insert digest digest s.used_invites, eq_iff digest digest);
              kept = λ g h. ground (arith, contains-insert digest g s.used_invites);
              same_roles = ground arith;
            }
      ]

  -- When `consume_invite` of a saved state returns an invite, the local node is the active
  -- coordinator, the invite is the first listed one with the digest of the token and has not
  -- expired, its digest is now marked used with all that were, and the roles are the same.
  pub consume_invite-IsConsumed :
      (hash_invite : String → String) (s t : ClusterState F) (token : String) (current : F)
      (i : InviteRecord F)
      → consume_invite hash_invite s token current ≡ (ok i, t)
      → IsConsumed s t (hash_invite token) current i
  unfolding consume_invite
  consume_invite-IsConsumed hash_invite s t token current i e =
      elim (Bool-cases (is_active_coordinator s)) [
        | inl a ↦ consume_found-IsConsumed s t (hash_invite token) current _ i a refl (ground arith)
        | inr n ↦ absurd (ground arith)
      ]
