-- ===== src/Cluster/Roles/Access.antt =====
-- Who may act: the authority of `_control` and the decision `allows`, as relations.
use expra_connect.Prelude.{
  ◌≡◌, refl, ap, sym, ◌∙◌, subst, string_eq, option_eq, pair_eq, ◌==◌, true, false, Option, none,
  some, List, [], ◌∷◌, map, Dict, lookup, put, lookup-put, find?, distinct, contains, arith,
  Bool-cases, Option-cases, inl, inr, ok, pair_beq_iff, ◌↔◌, Floats, All-find?,
}
use text.Mathlib.TextEquality.{eq_iff}
use expra_connect.Identity.{NodeId, NodePermission, permits}
use expra_connect.Cluster.Models.{RoleAssignment, CoordinatorEpoch, CapabilityGrant}
use expra_connect.Cluster.RoleState.{
  RoleState, number, grant_key, assignment_for, index_grants, control, is_inactive, may_control,
}
use expra_connect.Cluster.RoleState.Lookup.{find_id, or_else, has_id}
use expra_connect.Cluster.RoleState.Valid.{IsWellFormed, IsValid, assignment_for-eq}
use expra_connect.Cluster.Roles.{finite, live_grant, capability_grant, grant_permits, allows}

-- The node is known, neither revoked nor paused, and `a` is its assignment.
pub record IsActive {F : Type 0} (s : RoleState F) (n : NodeId) (a : RoleAssignment) : Type 0 where
  pub known : find_id n s.assignments ≡ some a
  pub not_revoked : a.revoked ≡ false
  pub not_paused : a.paused ≡ false

-- The node is the active Coordinator, and the one of the epoch if there is an epoch.
pub record HasAuthority {F : Type 0} (s : RoleState F) (n : NodeId) : Type 0 where
  pub assignment : RoleAssignment
  pub active : IsActive s n assignment
  pub coordinator : assignment.roles.coordinator ≡ true
  pub of_epoch : (e : CoordinatorEpoch F) → s.epoch ≡ some e → e.coordinator_id ≡ n

module _ {F : Type 0} (s : RoleState F) (v : IsValid s) where
  authority_sound :
      (n : NodeId) (o : Option RoleAssignment)
      → find_id n s.assignments ≡ o
      → may_control s n o ≡ true
      → HasAuthority s n
  authority_sound n none e h = absurd (ground arith)
  authority_sound n (some a) e h = record {
    assignment = a;
    active = record { known = e; not_revoked = ground arith; not_paused = ground arith };
    coordinator = ground arith;
    of_epoch = λ x p. ground (arith, eq_iff x.coordinator_id n);
  }

  authority_complete : (n : NodeId) → HasAuthority s n → may_control s n (assignment_for s n) ≡ true
  authority_complete n h =
      rw (assignment_for-eq s n v) (rw h.active.known (epoch_test s.epoch (λ e p. h.of_epoch e p)))
    where
      epoch_test :
          (o : Option (CoordinatorEpoch F))
          → ((e : CoordinatorEpoch F) → o ≡ some e → e.coordinator_id ≡ n)
          → may_control (record s { epoch = o }) n (some h.assignment) ≡ true
      epoch_test none k = ground (arith, h.active.not_revoked, h.active.not_paused, h.coordinator)
      epoch_test (some e) k = ground (
        arith,
        h.active.not_revoked,
        h.active.not_paused,
        h.coordinator,
        k e refl,
        eq_iff e.coordinator_id n,
      )

  -- In a valid role state, `_control` accepts an actor as a node exactly when the actor claims to
  -- be that node and the node is known, not revoked, not paused, a Coordinator, and the coordinator
  -- of the epoch if there is an epoch; what else the actor claims does not count.
  pub control_iff :
      (actor : RoleAssignment) (n : NodeId)
      → (control s actor ≡ ok n) ↔ ((actor.node_id ≡ some n) × HasAuthority s n)
  unfolding control
  control_iff actor n = (forwards, backwards)
    where
      forwards : control s actor ≡ ok n → (actor.node_id ≡ some n) × HasAuthority s n
      forwards h = elim (Option-cases actor.node_id) [
        | inl e ↦ absurd (ground arith)
        | inr (m, e) ↦ elim (Bool-cases (may_control s m (assignment_for s m))) [
          | inr f ↦ absurd (ground arith)
          | inl t ↦
              let same : m ≡ n = ground arith in
              (
                ground arith,
                subst (HasAuthority s) same
                    (authority_sound m (assignment_for s m) (sym (assignment_for-eq s m v)) t),
              )
        ]
      ]

      backwards : (actor.node_id ≡ some n) × HasAuthority s n → control s actor ≡ ok n
      backwards (e, h) = ground (arith, authority_complete n h)

module _ {F : Type 0} where
  abbrev pub find_grant : NodeId × NodeId → List (CapabilityGrant F) → Option (CapabilityGrant F)
  find_grant k = find? (λ g. grant_key g == k)

  find_grant-none :
      (k : NodeId × NodeId) (gs : List (CapabilityGrant F))
      → contains k (map grant_key gs) ≡ false
      → find_grant k gs ≡ none
  find_grant-none k [] h = refl
  find_grant-none k (g ∷ gs) h = ground (arith, find_grant-none k gs)

  lookup-index_grants :
      (k : NodeId × NodeId) (gs : List (CapabilityGrant F))
      (d : Dict (NodeId × NodeId) (CapabilityGrant F))
      → distinct (map grant_key gs) ≡ true
      → lookup k (index_grants gs d) ≡ or_else (find_grant k gs) (lookup k d)
  unfolding index_grants
  lookup-index_grants k [] d h = refl
  lookup-index_grants k (g ∷ gs) d h = ground (
    arith,
    lookup-index_grants k gs (put (grant_key g) g d),
    lookup-put (grant_key g) k g d,
    find_grant-none k gs,
    pair_beq_iff (grant_key g) k,
  )

  -- A grant of this state, from `x` to `y`, that has not run out at `t` and holds `p`.
  pub record Covers ⦃fl : Floats F⦄ (s : RoleState F) (x y : NodeId) (p : NodePermission) (t : F)
      : Type 0 where
    pub grant : CapabilityGrant F
    pub listed : find_grant (x, y) s.capability_grants ≡ some grant
    pub unexpired : fl.le grant.expires_at t ≡ false
    pub permitted : permits grant.permissions p ≡ true

  -- Why a request is allowed: the node itself, the Coordinator over a Worker, or a Subcoordinator
  -- over a Worker with a grant. Both ends are active.
  pub data Access ⦃fl : Floats F⦄ (s : RoleState F) (x y : NodeId) (p : NodePermission) (t : F)
      : Type 0 where
    own : (a : RoleAssignment) → IsActive s x a → x ≡ y → Access s x y p t
    leads :
        (a b : RoleAssignment)
        → IsActive s x a
        → IsActive s y b
        → a.roles.coordinator ≡ true
        → b.roles.worker ≡ true
        → Access s x y p t
    granted :
        (a b : RoleAssignment)
        → IsActive s x a
        → IsActive s y b
        → a.roles.subcoordinator ≡ true
        → b.roles.worker ≡ true
        → Covers s x y p t
        → Access s x y p t

module _ {F : Type 0} ⦃fl : Floats F⦄ (s : RoleState F) (v : IsValid s) (x y : NodeId)
    (p : NodePermission) (t : F) (fin : fl.is_finite t ≡ true) where
  IsActive-at :
      (n : NodeId) (a : RoleAssignment)
      → assignment_for s n ≡ some a
      → is_inactive (some a) ≡ false
      → IsActive s n a
  IsActive-at n a e h = record {
    known = sym (assignment_for-eq s n v) ∙ e;
    not_revoked = ground arith;
    not_paused = ground arith;
  }

  grant_at :
      capability_grant s x y (some (number t))
      ≡ live_grant (find_grant (x, y) s.capability_grants) (some (number t))
  unfolding capability_grant lookup
  grant_at =
      ap (λ o. live_grant o (some (number t)))
        (ground (arith, lookup-index_grants (x, y) s.capability_grants [] v.keys_distinct))

  Covers-at : grant_permits (capability_grant s x y (some (number t))) p ≡ true → Covers s x y p t
  unfolding finite
  Covers-at h = elim (Option-cases (find_grant (x, y) s.capability_grants)) [
    | inl e ↦ absurd (ground (arith, grant_at))
    | inr (g, e) ↦ elim (Bool-cases (fl.le g.expires_at t)) [
      | inl late ↦ absurd (ground (arith, grant_at))
      | inr live ↦ record {
        grant = g;
        listed = e;
        unexpired = live;
        permitted = ground (arith, grant_at);
      }
    ]
  ]

  allows_sound : allows s x y p (number t) ≡ true → Access s x y p t
  unfolding allows finite
  allows_sound h = elim (Option-cases (assignment_for s x)) [
    | inl e ↦ absurd (ground arith)
    | inr (a, ea) ↦ elim (Option-cases (assignment_for s y)) [
      | inl e ↦ absurd (ground arith)
      | inr (b, eb) ↦
          let at_x = IsActive-at x a ea (ground arith) in
          let at_y = IsActive-at y b eb (ground arith) in
          elim (Bool-cases (x == y)) [
            | inl same ↦ own a at_x ((eq_iff x y).0 same)
            | inr apart ↦ elim (Bool-cases a.roles.coordinator) [
              | inl c ↦ leads a b at_x at_y c (ground arith)
              | inr n ↦
                  granted a b at_x at_y (ground arith) (ground arith) (Covers-at (ground arith))
            ]
          ]
    ]
  ]

  allows_complete : Access s x y p t → allows s x y p (number t) ≡ true
  unfolding allows finite
  allows_complete (own a ax same) = ground (
    arith,
    eq_iff x y,
    assignment_for-eq s x v,
    assignment_for-eq s y v,
    ax.known,
    ax.not_revoked,
    ax.not_paused,
  )
  allows_complete (leads a b ax by c w) = ground (
    arith,
    assignment_for-eq s x v,
    assignment_for-eq s y v,
    ax.known,
    ax.not_revoked,
    ax.not_paused,
    by.known,
    by.not_revoked,
    by.not_paused,
  )
  allows_complete (granted a b ax by u w k) = ground (
    arith,
    assignment_for-eq s x v,
    assignment_for-eq s y v,
    ax.known,
    ax.not_revoked,
    ax.not_paused,
    by.known,
    by.not_revoked,
    by.not_paused,
    grant_at,
    k.listed,
    k.unexpired,
    k.permitted,
    All-find? IsWellFormed (has_id x) s.assignments a v.well_formed ax.known,
  )

  -- In a valid role state and at a finite time, `allows` says yes exactly when both nodes are
  -- known, not revoked and not paused and either they are the same node, or the source is a
  -- Coordinator and the target a Worker, or the source is a Subcoordinator with a grant to the
  -- target, a Worker, that has not expired and holds the permission.
  pub allows_iff : (allows s x y p (number t) ≡ true) ↔ Access s x y p t
  allows_iff = (allows_sound, allows_complete)
