-- ===== src/Cluster/Lease/Elected.antt =====
-- `promote_subcoordinator` of src/expra_connect/cluster/roles.py, out of a valid state.
use expra_connect.Prelude.{
  ap, insert, ◌-◌, pair_eq, distinct, ℕ_eq, ℕ, ◌+◌, ◌≡◌, refl, sym, ◌∙◌, string_eq, option_eq,
  pair_eq, ℕ_eq, Bool, true, false, Option, none, some, List, [], count, contains, All, arith,
  Bool-cases, inl, inr, ok, Error, fencing_error, value_error, String, Ensures, bind-Ensures,
  raise_if-Ensures, Floats, any_of_find?,
}
use text.Mathlib.TextEquality.{eq_iff}
use expra_connect.Identity.{NodeId}
use expra_connect.Cluster.Models.{RoleAssignment, CoordinatorEpoch, init_epoch}
use expra_connect.Cluster.RoleState.{
  RoleState, Moment, number, other, is_active_coordinator, is_active_subcoordinator, assignment_for,
}
use expra_connect.Cluster.RoleState.Lookup.{ids, find_id, has_id}
use expra_connect.Cluster.RoleState.Valid.{
  IsWellFormed, IsValid, init_assignment_same, assignment_for-eq,
}
use expra_connect.Cluster.RoleState.Keeps.{find_id-node_id}
use expra_connect.Cluster.Lease.{
  is_ready, is_ready?, PromotionDecision, valid_time, can_promote, may_promote, ready_id,
  ready_subcoordinator, decide, promote_known, promote_in, promote_subcoordinator,
  heartbeat_timeout_seconds,
}
use expra_connect.Cluster.Lease.Promotion.{
  promoted, demote_others_ok, demoted-All, ids-demoted, find_id-demoted, one_coordinator,
  no_subcoordinator, prune-demoted,
}

-- the exceptions of a promotion: a FencingError, or that the new epoch is invalid
abbrev pub IsPromotionError : Error → Type 0
IsPromotionError (fencing_error m) = Unit
IsPromotionError e = e ≡ value_error "invalid coordinator epoch"

ready_facts :
    (o : Option RoleAssignment)
    → is_ready? o ≡ true
    → (a : RoleAssignment) × (o ≡ some a) × (is_ready a ≡ true)
ready_facts none h = absurd (ground arith)
ready_facts (some a) h = (a, refl, h)

module _ {F : Type 0} ⦃fl : Floats F⦄ where
  -- `d` promotes, out of the state `s`, a ready Subcoordinator whose epoch was due and unused.
  pub record IsPromotion (s : RoleState F) (now : Moment F) (d : PromotionDecision F) : Type 0 where
    pub old : CoordinatorEpoch F
    pub had_epoch : s.epoch ≡ some old
    pub unused : contains old.epoch s.promotion_epochs ≡ false
    pub due :
        (t : F) × (valid_time now "promotion time is invalid" ≡ ok t)
        × (fl.le old.lease_expires_at t ≡ true)
    pub next_epoch : d.epoch.epoch ≡ old.epoch + 1
    pub elected : RoleAssignment
    pub was_known : find_id d.epoch.coordinator_id s.assignments ≡ some elected
    pub was_ready : is_ready elected ≡ true
    pub leads : find_id d.epoch.coordinator_id d.assignments ≡ some d.role_assignment
    pub leads_as : d.role_assignment ≡ promoted d.epoch.coordinator_id
    pub one_leader : count is_active_coordinator d.assignments ≡ 1
    pub no_deputy : count is_active_subcoordinator d.assignments ≡ 0
    pub same_nodes : ids d.assignments ≡ ids s.assignments
    pub all_well_formed : All IsWellFormed d.assignments
    pub no_grants : d.capability_grants ≡ []

  init_epoch-Ensures :
      (e : CoordinatorEpoch F) → Ensures IsPromotionError (λ x. x ≡ e) (init_epoch e)
  unfolding init_epoch
  init_epoch-Ensures e = raise_if-Ensures IsPromotionError (λ x. x ≡ e) _ _ (ok e) refl λ _. refl

  valid_time-Ensures :
      (now : Moment F) (field : String)
      → Ensures IsPromotionError (λ t. valid_time now field ≡ ok t) (valid_time now field)
  unfolding valid_time
  valid_time-Ensures (number x) field = elim (Bool-cases (fl.is_finite x)) [
    | inl t ↦ ground arith
    | inr f ↦ ground arith
  ]
  valid_time-Ensures other field = tt

  may_promote_facts :
      (o : Option (CoordinatorEpoch F)) (old : CoordinatorEpoch F) (epochs : List ℕ) (t : F)
      → o ≡ some old
      → may_promote o epochs (number t) ≡ true
      → (fl.le old.lease_expires_at t ≡ true) × (contains old.epoch epochs ≡ false)
  may_promote_facts o old epochs t e h = ground arith

  module _ (s : RoleState F) (v : IsValid s) where
    can_promote_facts :
        (old : CoordinatorEpoch F) (sub : NodeId) (t : F) (authenticated : Bool)
        → s.epoch ≡ some old
        → can_promote s sub (number t) authenticated ≡ true
        → (a : RoleAssignment) × (find_id sub s.assignments ≡ some a)
          × (is_ready a ≡ true)
          × (fl.le old.lease_expires_at t ≡ true)
          × (contains old.epoch s.promotion_epochs ≡ false)
    unfolding can_promote
    can_promote_facts old sub t authenticated e can =
        let (a, found, ready) = ready_facts (assignment_for s sub) (ground arith) in
        let facts = may_promote_facts s.epoch old s.promotion_epochs t e (ground arith) in
        (a, sym (assignment_for-eq s sub v) ∙ found, ready, facts.0, facts.1)

    decide-Ensures :
        (now : Moment F) (old : CoordinatorEpoch F) (sub : NodeId) (t : F) (token : String)
        (authenticated : Bool)
        → s.epoch ≡ some old
        → valid_time now "promotion time is invalid" ≡ ok t
        → can_promote s sub (number t) authenticated ≡ true
        → Ensures IsPromotionError (IsPromotion s now) (decide s old sub t token)
    unfolding decide
    decide-Ensures now old sub t token authenticated e te can =
        let (a, found, ready, due, unused) = can_promote_facts old sub t authenticated e can in
        let epoch : CoordinatorEpoch F = record {
          epoch = old.epoch + 1;
          coordinator_id = sub;
          fencing_token = token;
          issued_at = t;
          lease_expires_at = fl.add t heartbeat_timeout_seconds;
        } in
        bind-Ensures IsPromotionError (λ x. x ≡ epoch) (IsPromotion s now) (init_epoch epoch) _
          (init_epoch-Ensures epoch)
          λ x _ same. rw (init_assignment_same (promoted sub) (ground arith)) (
            rw (demote_others_ok sub s.assignments v.well_formed) (
              rw same (record {
                old = old;
                had_epoch = e;
                unused = unused;
                due = (t, te, due);
                next_epoch = refl;
                elected = a;
                was_known = found;
                was_ready = ready;
                leads = ground (
                  arith,
                  find_id-demoted sub sub s.assignments,
                  found,
                  find_id-node_id sub s.assignments a found,
                  eq_iff sub sub,
                );
                leads_as = refl;
                one_leader =
                    one_coordinator sub s.assignments v.ids_distinct
                      (any_of_find? (has_id sub) s.assignments a found);
                no_deputy = no_subcoordinator sub s.assignments;
                same_nodes = ids-demoted sub s.assignments;
                all_well_formed = demoted-All sub s.assignments v.well_formed;
                no_grants = prune-demoted sub s.assignments s.capability_grants v.ids_distinct;
              })))

    promote_known-Ensures :
        (now : Moment F) (old : CoordinatorEpoch F) (t : F) (authenticated : Bool) (token : String)
        (o : Option NodeId)
        → s.epoch ≡ some old
        → valid_time now "promotion time is invalid" ≡ ok t
        → Ensures IsPromotionError (IsPromotion s now) (promote_known s old t authenticated token o)
    promote_known-Ensures now old t authenticated token none e te = tt
    promote_known-Ensures now old t authenticated token (some sub) e te =
        elim (Bool-cases (can_promote s sub (number t) authenticated)) [
          | inl can ↦ rw can (decide-Ensures now old sub t token authenticated e te can)
          | inr no_way ↦ rw no_way tt
        ]

    promote_in-Ensures :
        (o : Option (CoordinatorEpoch F)) (now : Moment F) (authenticated : Bool) (token : String)
        → s.epoch ≡ o
        → Ensures IsPromotionError (IsPromotion s now) (promote_in s o now authenticated token)
    promote_in-Ensures none now authenticated token e = tt
    promote_in-Ensures (some old) now authenticated token e =
        bind-Ensures IsPromotionError _ (IsPromotion s now)
          (valid_time now "promotion time is invalid") _
          (valid_time-Ensures now "promotion time is invalid")
          λ t te _.
            promote_known-Ensures now old t authenticated token
              (ready_id (ready_subcoordinator s.assignments)) e te

    -- From a valid role state, a promotion raises a FencingError or the ValueError of an invalid
    -- epoch, or it decides for a ready Subcoordinator at a time at or after the end of the lease,
    -- with the epoch's number one higher and the old number unused; then there is one active
    -- Coordinator, no active Subcoordinator and no grant, and the nodes are the same.
    pub promote_subcoordinator-Ensures :
        (now : Moment F) (authenticated : Bool) (token : String)
        → Ensures IsPromotionError
            (IsPromotion s now)
            (promote_subcoordinator s now authenticated token)
    unfolding promote_subcoordinator
    promote_subcoordinator-Ensures now authenticated token =
        promote_in-Ensures s.epoch now authenticated token refl

    -- The state that a promotion leads to.
    pub promoted-IsValid :
        (now : Moment F) (d : PromotionDecision F)
        → IsPromotion s now d
        → IsValid (record {
          assignments = d.assignments;
          epoch = some d.epoch;
          promotion_epochs = insert (d.epoch.epoch - 1) s.promotion_epochs;
          capability_grants = d.capability_grants;
        })
    promoted-IsValid now d p = record {
      well_formed = p.all_well_formed;
      ids_distinct = ap distinct p.same_nodes ∙ v.ids_distinct;
      one_coordinator = omega (arith, p.one_leader);
      one_subcoordinator = omega (arith, p.no_deputy);
      keys_distinct = rw p.no_grants refl;
      grants_live = rw p.no_grants tt;
    }
