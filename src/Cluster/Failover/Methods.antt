-- ===== src/Cluster/Failover/Methods.antt =====
-- The outcomes of each method of src/expra_connect/cluster/failover.py.
use expra_connect.Prelude.{
  ℕ, ◌-◌, ◌≡◌, refl, sym, ◌∙◌, ℕ_eq, string_eq, option_eq, pair_eq, true, false, Option, none, some,
  arith, Result, ok, err, Error, fencing_error, Ensures, bind-Ensures, ◌>>=◌, [], String, Floats,
  contains, contains-insert,
}
use expra_connect.Identity.{NodeId}
use expra_connect.Cluster.Models.{RoleAssignment, RoleSet, CoordinatorEpoch}
use expra_connect.Cluster.RoleState.{RoleState, number, revoke}
use expra_connect.Cluster.RoleState.Valid.{IsValid, init_role_state-Keeps, init_role_state-IsValid}
use expra_connect.Cluster.RoleState.Keeps.{IsRefusal}
use expra_connect.Cluster.RoleState.Removal.{revoke-Keeps}
use expra_connect.Cluster.Roles.{assign}
use expra_connect.Cluster.Roles.Keeps.{IsAssignError}
use expra_connect.Cluster.Roles.Assign.{assign-Keeps}
use expra_connect.Cluster.Lease.{
  PromotionDecision, promote_subcoordinator, renew_lease, EpochClaim, heartbeat_timeout_seconds,
}
use expra_connect.Cluster.Lease
use expra_connect.Cluster.Lease.Elected.{
  IsPromotion, promoted-IsValid, IsPromotionError, promote_subcoordinator-Ensures,
}
use expra_connect.Cluster.Lease.Renewal.{IsRenewal, IsRenewalError, renew_lease-Ensures}
use expra_connect.Cluster.Lease.Rejoin.{IsFencing, rejoin_as_worker-Keeps}
use expra_connect.Cluster.Failover.{
  FailoverCoordinator, Persist, fenced, rejoin_as_worker, revoke_member, renewed, heartbeat,
  heartbeat_in, promoted_state, promote_if_due, promote_by, assign_role,
}
use expra_connect.Cluster.Failover.Publish.{Outcome, raised, declined, commit_result-Outcome}

-- the result of an operation with what it returns
with_value :
    {F A : Type 0} (E : Error → Type 0) (P : RoleState F → Type 0) (Q : RoleState F × A → Type 0)
    (m : Result (RoleState F)) (a : A)
    → ((s : RoleState F) → m ≡ ok s → P s → Q (s, a))
    → Ensures E P m
    → Ensures E Q (m >>= (λ s. ok (s, a)))
with_value E P Q m a k h = bind-Ensures E P Q m (λ s. ok (s, a)) h k

ok-injective : {A : Type 0} {a b : A} → ok a ≡ ok b → a ≡ b
ok-injective e = cc

keep_equation :
    {F A : Type 0} (E : Error → Type 0) (m : Result (RoleState F × A))
    → Ensures E (λ p. IsValid p.0) m
    → Ensures E (λ p. IsValid p.0 × (m ≡ ok p)) m
keep_equation E (ok p) h = (h, refl)
keep_equation E (err e) h = h

module _ {F : Type 0} (persist : Persist F) (c : FailoverCoordinator F) (v : IsValid c.state) where
  -- On a coordinator with a valid state, the method `rejoin_as_worker` raises and changes nothing,
  -- or it publishes the valid state of the function `rejoin_as_worker`, which `persist`, if there
  -- is one, has accepted.
  pub rejoin_as_worker-Outcome :
      (node_id : NodeId) (current_epoch : EpochClaim)
      → Outcome persist c
          (λ _. ⊥)
          (λ _ s. Lease.rejoin_as_worker c.state node_id current_epoch ≡ ok s)
          (rejoin_as_worker persist node_id current_epoch c)
  unfolding rejoin_as_worker
  rejoin_as_worker-Outcome node_id current_epoch = commit_result-Outcome persist c _ _ _ IsFencing (
      with_value IsFencing IsValid _ (Lease.rejoin_as_worker c.state node_id current_epoch) tt
        (λ s e v'. (v', e)) (rejoin_as_worker-Keeps c.state v node_id current_epoch))

  -- On a coordinator with a valid state, `revoke_member` raises and changes nothing, or it
  -- publishes the valid state of `revoke`, which `persist`, if there is one, has accepted.
  pub revoke_member-Outcome :
      (actor : RoleAssignment) (target : NodeId)
      → Outcome persist c
          (λ _. ⊥)
          (λ _ s. revoke c.state actor target ≡ ok s)
          (revoke_member persist actor target c)
  unfolding revoke_member
  revoke_member-Outcome actor target = commit_result-Outcome persist c _ _ _ IsRefusal (
      with_value IsRefusal IsValid _ (revoke c.state actor target) tt (λ s e v'. (v', e))
        (revoke-Keeps c.state v actor target))

module _ {F : Type 0} ⦃fl : Floats F⦄ (persist : Persist F) (c : FailoverCoordinator F)
    (v : IsValid c.state) where
  -- On a coordinator with a valid state, `assign_role` raises and changes nothing, or it returns
  -- the change of `assign` and publishes the valid state of `assign`, which `persist`, if there is
  -- one, has accepted.
  pub assign_role-Outcome :
      (actor : RoleAssignment) (target : NodeId) (roles : RoleSet) (now : F)
      → Outcome persist c
          (λ _. ⊥)
          (λ change s. assign c.state actor target roles now ≡ ok (s, change))
          (assign_role persist actor target roles now c)
  unfolding assign_role
  assign_role-Outcome actor target roles now = commit_result-Outcome persist c _ _ _ IsAssignError (
      keep_equation IsAssignError (assign c.state actor target roles now)
        (assign-Keeps c.state v actor target roles now))

  -- the state that a promotion publishes
  pub record IsPromoted (now : F) (s : RoleState F) : Type 0 where
    pub decision : PromotionDecision F
    pub promotes : IsPromotion c.state (number now) decision
    pub epoch : s.epoch ≡ some decision.epoch
    pub assignments : s.assignments ≡ decision.assignments
    pub used : contains (decision.epoch.epoch - 1) s.promotion_epochs ≡ true
    pub kept :
        (n : ℕ) → contains n c.state.promotion_epochs ≡ true → contains n s.promotion_epochs ≡ true
    pub no_grants : s.capability_grants ≡ []

  -- the state that a heartbeat publishes
  pub record IsRenewed (coordinator_id : NodeId) (token : Option String) (now : F) (s : RoleState F)
      : Type 0 where
    pub old : CoordinatorEpoch F
    pub had_epoch : c.state.epoch ≡ some old
    pub new : CoordinatorEpoch F
    pub renewal :
        IsRenewal old coordinator_id token (number now) (number heartbeat_timeout_seconds) new
    pub published : s ≡ record c.state { epoch = some new }

  promote_by-Outcome :
      (now : F) (m : Result (PromotionDecision F))
      → Ensures IsPromotionError (IsPromotion c.state (number now)) m
      → Outcome persist c
          (λ a. a ≡ false)
          (λ a s. (a ≡ true) × IsPromoted now s)
          (promote_by persist m c)
  unfolding promoted_state
  promote_by-Outcome now (err (fencing_error m)) h = declined false refl
  promote_by-Outcome now (err e) h = raised e
  promote_by-Outcome now (ok d) p = commit_result-Outcome persist c _ _ _ IsRefusal (
      with_value IsRefusal IsValid _ (promoted_state c.state d) true
        (λ s e v'. (v', (refl, promoted_facts s e)))
        (init_role_state-Keeps IsRefusal _ (promoted-IsValid c.state v (number now) d p)))
    where
      promoted_facts : (s : RoleState F) → promoted_state c.state d ≡ ok s → IsPromoted now s
      promoted_facts s e =
          let same =
            ok-injective
              (sym (init_role_state-IsValid _ (promoted-IsValid c.state v (number now) d p)) ∙ e) in
          rw (← same) (record {
            decision = d;
            promotes = p;
            epoch = refl;
            assignments = refl;
            used = rw contains-insert (ground arith);
            kept = λ n h. rw contains-insert (ground arith);
            no_grants = p.no_grants;
          })

  -- On a coordinator with a valid state, `promote_if_due` raises or returns False and changes
  -- nothing, or it returns True and publishes a valid state that promotes a ready Subcoordinator
  -- under the next epoch, marks the old epoch used and drops all grants; a state is published only
  -- when there is no `persist` or when `persist` has accepted it.
  pub promote_if_due-Outcome :
      (token : String) (now : F)
      → Outcome persist c
          (λ a. a ≡ false)
          (λ a s. (a ≡ true) × IsPromoted now s)
          (promote_if_due persist token now c)
  unfolding promote_if_due
  promote_if_due-Outcome token now =
      promote_by-Outcome now (promote_subcoordinator c.state (number now) true token)
        (promote_subcoordinator-Ensures c.state v (number now) true token)

  renewed-Ensures :
      (old : CoordinatorEpoch F) (coordinator_id : NodeId) (token : Option String) (now : F)
      → c.state.epoch ≡ some old
      → Ensures
          (IsRenewalError old token)
          (λ s. IsValid s × IsRenewed coordinator_id token now s)
          (renewed c.state old coordinator_id token now)
  renewed-Ensures old coordinator_id token now e =
      bind-Ensures (IsRenewalError old token) _ _
        (renew_lease old coordinator_id token (number now) (number heartbeat_timeout_seconds)) _
        (renew_lease-Ensures old coordinator_id token (number now)
          (number heartbeat_timeout_seconds))
        λ new _ renewal.
          let valid : IsValid (record c.state { epoch = some new }) = record {
            well_formed = v.well_formed;
            ids_distinct = v.ids_distinct;
            one_coordinator = v.one_coordinator;
            one_subcoordinator = v.one_subcoordinator;
            keys_distinct = v.keys_distinct;
            grants_live = v.grants_live;
          } in
          rw (init_role_state-IsValid _ valid) (
            valid,
            record { old = old; had_epoch = e; new = new; renewal = renewal; published = refl },
          )

  fenced-Outcome :
      (coordinator_id : NodeId) (token : Option String) (now : F) (old : CoordinatorEpoch F)
      (m : Result (RoleState F))
      → Ensures (IsRenewalError old token) (λ s. IsValid s × IsRenewed coordinator_id token now s) m
      → Outcome persist c
          (λ a. a ≡ false)
          (λ a s. (a ≡ true) × IsRenewed coordinator_id token now s)
          (fenced persist m c)
  fenced-Outcome coordinator_id token now old (err (fencing_error m)) h = declined false refl
  fenced-Outcome coordinator_id token now old (err e) h = raised e
  fenced-Outcome coordinator_id token now old (ok s) (valid, is) =
      commit_result-Outcome persist c _ _ (ok (s, true)) IsRefusal (valid, (refl, is))

  heartbeat_in-Outcome :
      (o : Option (CoordinatorEpoch F)) (coordinator_id : NodeId) (token : Option String) (now : F)
      → c.state.epoch ≡ o
      → Outcome persist c
          (λ a. a ≡ false)
          (λ a s. (a ≡ true) × IsRenewed coordinator_id token now s)
          (heartbeat_in persist o coordinator_id token now c)
  heartbeat_in-Outcome none coordinator_id token now e = declined false refl
  heartbeat_in-Outcome (some old) coordinator_id token now e =
      fenced-Outcome coordinator_id token now old _ (renewed-Ensures old coordinator_id token now e)

  -- On a coordinator with a valid state, `heartbeat` raises or returns False and changes nothing,
  -- or it returns True and publishes the state with the renewed lease and no other change, which
  -- `persist`, if there is one, has accepted.
  pub heartbeat-Outcome :
      (coordinator_id : NodeId) (token : Option String) (now : F)
      → Outcome persist c
          (λ a. a ≡ false)
          (λ a s. (a ≡ true) × IsRenewed coordinator_id token now s)
          (heartbeat persist coordinator_id token now c)
  unfolding heartbeat
  heartbeat-Outcome coordinator_id token now =
      heartbeat_in-Outcome c.state.epoch coordinator_id token now refl
