-- ===== src/Cluster/History/Fencing.antt =====
-- The invariant and the epochs along a history of src/expra_connect/cluster/roles.py.
use expra_connect.Prelude.{
  ◌+◌, ◌≤◌, ◌<◌, ◌≡◌, refl, sym, subst, ap, Option, none, some, arith, inl, inr, Ensures-ok, Floats,
  ◌⊎◌,
}
use expra_connect.Cluster.Models.{CoordinatorEpoch}
use expra_connect.Cluster.RoleState.{RoleState}
use expra_connect.Cluster.RoleState.Valid.{IsValid}
use expra_connect.Cluster.RoleState.Keeps.{IsRefusal, pause-Keeps, resume-Keeps}
use expra_connect.Cluster.RoleState.Removal.{revoke-Keeps, clear_revocation-Keeps}
use expra_connect.Cluster.Roles.Keeps.{
  IsGrantError, IsAssignError, job-Keeps, revoke_capabilities-Keeps, grant_capabilities-Keeps,
}
use expra_connect.Cluster.Roles.Assign.{assign-Keeps, FirstIsValid}
use expra_connect.Cluster.Lease.Elected.{
  IsPromotion, IsPromotionError, promoted-IsValid, promote_subcoordinator-Ensures,
}
use expra_connect.Cluster.Lease.Renewal.{IsRenewal, IsRenewalError, renew_lease-Ensures}
use expra_connect.Cluster.Lease.Rejoin.{IsFencing, rejoin_as_worker-Keeps}
use expra_connect.Cluster.History.{
  Step, assigns, pauses, resumes, revokes, clears, jobs, grants, ungrants, rejoins, renews,
  promotes, History, start, then, init_role_state_same, promoted_state_same, assign-epoch,
  pause-epoch, resume-epoch, revoke-epoch, clear_revocation-epoch, job-epoch,
  grant_capabilities-epoch, revoke_capabilities-epoch, rejoin_as_worker-epoch,
}

module _ {F : Type 0} ⦃fl : Floats F⦄ where
  Step-IsValid : (s t : RoleState F) → IsValid s → Step s t → IsValid t
  Step-IsValid s t v (assigns actor target roles now c e) =
      Ensures-ok IsAssignError FirstIsValid _ (t, c) (assign-Keeps s v actor target roles now) e
  Step-IsValid s t v (pauses actor target e) =
      Ensures-ok IsRefusal IsValid _ t (pause-Keeps s v actor target) e
  Step-IsValid s t v (resumes actor target e) =
      Ensures-ok IsRefusal IsValid _ t (resume-Keeps s v actor target) e
  Step-IsValid s t v (revokes actor target e) =
      Ensures-ok IsRefusal IsValid _ t (revoke-Keeps s v actor target) e
  Step-IsValid s t v (clears target e) =
      Ensures-ok (λ _. ⊥) IsValid _ t (clear_revocation-Keeps s v target) e
  Step-IsValid s t v (jobs actor target active e) =
      Ensures-ok IsRefusal IsValid _ t (job-Keeps s v actor target active) e
  Step-IsValid s t v (grants actor subject target permissions now expires_at e) =
      Ensures-ok IsGrantError IsValid _ t
        (grant_capabilities-Keeps s v actor subject target permissions now expires_at) e
  Step-IsValid s t v (ungrants actor subject target e) =
      Ensures-ok IsRefusal IsValid _ t (revoke_capabilities-Keeps s v actor subject target) e
  Step-IsValid s t v (rejoins node_id c e) =
      Ensures-ok IsFencing IsValid _ t (rejoin_as_worker-Keeps s v node_id c) e
  Step-IsValid s t v (renews old new coordinator_id token now lease had r e) =
      rw (init_role_state_same (record s { epoch = some new }) t e) (record {
        well_formed = v.well_formed;
        ids_distinct = v.ids_distinct;
        one_coordinator = v.one_coordinator;
        one_subcoordinator = v.one_subcoordinator;
        keys_distinct = v.keys_distinct;
        grants_live = v.grants_live;
      })
  Step-IsValid s t v (promotes now authenticated token d e p) = rw (promoted_state_same s t d p) (
      promoted-IsValid s v now d (
        Ensures-ok IsPromotionError (IsPromotion s now) _ d
          (promote_subcoordinator-Ensures s v now authenticated token) e))

  -- Every role state that a history of operations reaches from a valid one is valid: node ids are
  -- distinct, at most one active Coordinator and one active Subcoordinator, every assignment well
  -- formed, and every grant from an active Subcoordinator to an active Worker, one for each pair.
  pub History-IsValid : (s t : RoleState F) → IsValid s → History s t → IsValid t
  History-IsValid s t v start = v
  History-IsValid s t v (then {t = m} h st) = Step-IsValid m t (History-IsValid s m v h) st

  -- An epoch and one of the same state later on: a greater number, or the same authority.
  abbrev pub Follows : Option (CoordinatorEpoch F) → Option (CoordinatorEpoch F) → Type 0
  Follows none o = Unit
  Follows (some e) none = ⊥
  Follows (some e) (some e') =
      (e.epoch < e'.epoch)
      ⊎ ((e'.epoch ≡ e.epoch)
          × (e'.coordinator_id ≡ e.coordinator_id)
          × (e'.fencing_token ≡ e.fencing_token))

  Follows-refl : (o : Option (CoordinatorEpoch F)) → Follows o o
  Follows-refl none = tt
  Follows-refl (some e) = inr (refl, refl, refl)

  Follows-trans : (o p q : Option (CoordinatorEpoch F)) → Follows o p → Follows p q → Follows o q
  Follows-trans none p q h k = tt
  Follows-trans (some e) none q h k = absurd h
  Follows-trans (some e) (some e') none h k = k
  Follows-trans (some e) (some e') (some e'') h k = ground arith

  same_epoch : (s t : RoleState F) → t.epoch ≡ s.epoch → Follows s.epoch t.epoch
  same_epoch s t e = subst (Follows s.epoch) (sym e) (Follows-refl s.epoch)

  renewal_Follows :
      (old new : CoordinatorEpoch F) (o p : Option (CoordinatorEpoch F))
      → o ≡ some old
      → p ≡ some new
      → new.epoch ≡ old.epoch
      → new.coordinator_id ≡ old.coordinator_id
      → new.fencing_token ≡ old.fencing_token
      → Follows o p
  renewal_Follows old new none p e k a b c = tt
  renewal_Follows old new (some x) none e k a b c = absurd (ground arith)
  renewal_Follows old new (some x) (some y) e k a b c = ground arith

  next_Follows :
      (old new : CoordinatorEpoch F) (o p : Option (CoordinatorEpoch F))
      → o ≡ some old
      → p ≡ some new
      → new.epoch ≡ old.epoch + 1
      → Follows o p
  next_Follows old new none p e k a = tt
  next_Follows old new (some x) none e k a = absurd (ground arith)
  next_Follows old new (some x) (some y) e k a = inl (ground arith)

  Step-Follows : (s t : RoleState F) → IsValid s → Step s t → Follows s.epoch t.epoch
  Step-Follows s t v (assigns actor target roles now c e) =
      same_epoch s t (assign-epoch s t c actor target roles now e)
  Step-Follows s t v (pauses actor target e) = same_epoch s t (pause-epoch s t actor target e)
  Step-Follows s t v (resumes actor target e) = same_epoch s t (resume-epoch s t actor target e)
  Step-Follows s t v (revokes actor target e) = same_epoch s t (revoke-epoch s t actor target e)
  Step-Follows s t v (clears target e) = same_epoch s t (clear_revocation-epoch s t target e)
  Step-Follows s t v (jobs actor target active e) =
      same_epoch s t (job-epoch s t actor target active e)
  Step-Follows s t v (grants actor subject target permissions now expires_at e) =
      same_epoch s t
        (grant_capabilities-epoch s t actor subject target permissions now expires_at e)
  Step-Follows s t v (ungrants actor subject target e) =
      same_epoch s t (revoke_capabilities-epoch s t actor target subject e)
  Step-Follows s t v (rejoins node_id c e) = same_epoch s t (rejoin_as_worker-epoch s t node_id c e)
  Step-Follows s t v (renews old new coordinator_id token now lease had r e) =
      let is =
        Ensures-ok (IsRenewalError old token) (IsRenewal old coordinator_id token now lease) _ new
          (renew_lease-Ensures old coordinator_id token now lease) r in
      renewal_Follows old new s.epoch t.epoch had
        (ap (λ (x : RoleState F). x.epoch)
          (init_role_state_same (record s { epoch = some new }) t e))
        is.same_epoch is.same_owner is.same_token
  Step-Follows s t v (promotes now authenticated token d e p) =
      let is =
        Ensures-ok IsPromotionError (IsPromotion s now) _ d
          (promote_subcoordinator-Ensures s v now authenticated token) e in
      next_Follows is.old d.epoch s.epoch t.epoch is.had_epoch
        (ap (λ (x : RoleState F). x.epoch) (promoted_state_same s t d p)) is.next_epoch

  History-Follows : (s t : RoleState F) → IsValid s → History s t → Follows s.epoch t.epoch
  History-Follows s t v start = Follows-refl s.epoch
  History-Follows s t v (then {t = m} h st) =
      Follows-trans s.epoch m.epoch t.epoch (History-Follows s m v h)
        (Step-Follows m t (History-IsValid s m v h) st)

  -- Along any history of operations from a valid role state, with any actors and any arguments, the
  -- number of the epoch never falls, and as long as the number is the same the coordinator and the
  -- fencing token are the same.
  pub epoch_has_one_owner :
      (s t : RoleState F) (e e' : CoordinatorEpoch F)
      → IsValid s
      → History s t
      → s.epoch ≡ some e
      → t.epoch ≡ some e'
      → (e.epoch ≤ e'.epoch)
        × (e'.epoch ≡ e.epoch
            → (e'.coordinator_id ≡ e.coordinator_id) × (e'.fencing_token ≡ e.fencing_token))
  epoch_has_one_owner s t e e' v h p q =
      owner_facts e e'
        (subst (λ o. Follows o (some e')) p (subst (Follows s.epoch) q (History-Follows s t v h)))
    where
      owner_facts :
          (e e' : CoordinatorEpoch F)
          → Follows (some e) (some e')
          → (e.epoch ≤ e'.epoch)
            × (e'.epoch ≡ e.epoch
                → (e'.coordinator_id ≡ e.coordinator_id) × (e'.fencing_token ≡ e.fencing_token))
      owner_facts e e' (inl lt) = (omega arith, λ same. absurd (omega arith))
      owner_facts e e' (inr same) = (omega arith, λ _. (same.1, same.2))
