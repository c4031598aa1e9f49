-- ===== src/Cluster/Roles/Keeps.antt =====
-- The invariant under the jobs and the grants of src/expra_connect/cluster/roles.py.
use expra_connect.Prelude.{
  ◌≡◌, refl, sym, subst, string_eq, option_eq, pair_eq, ◌==◌, ◌||◌, ◌&&◌, Bool, true, false, not,
  Option, none, some, List, [], map, ◌∷◌, ◌++◌, lookup, any, count, distinct, to_ℕ, All, All-filter,
  All-append, distinct-map-filter, arith, Bool-cases, inl, inr, Result, ok, err, Error, value_error,
  Ensures, bind-Ensures, raise_if-Ensures, Floats, ◌⊎◌, distinct-map-append_one,
  contains-map-without,
}
use expra_connect.Identity.{NodeId, PermissionSet}
use expra_connect.Cluster.Models.{
  RoleAssignment, RoleSet, CapabilityGrant, init_assignment, init_grant,
}
use expra_connect.Cluster.RoleState.{
  RoleState, is_active_subcoordinator, grant_key, assignment_for, prune_capability_grants, control,
  is_inactive,
}
use expra_connect.Cluster.RoleState.Lookup.{ids, find_id, has_id, lookup-index, head_unique}
use expra_connect.Cluster.RoleState.Valid.{
  IsWellFormed, IsLive, IsValid, init_role_state-Keeps, assignment_for-eq,
}
use expra_connect.Cluster.RoleState.Keeps.{
  IsRefusal, control-Ensures, current_facts, replace-Ensures,
}
use expra_connect.Cluster.Roles.{
  no_worker, job, has_subcoordinator, has_worker, without_grant, revoke_capabilities,
  grant_capabilities, new_assignment, is_other_subcoordinator,
}

no_worker-Ensures :
    (o : Option RoleAssignment) (active : Bool)
    → Ensures IsRefusal (λ a. o ≡ some a) (no_worker o active)
no_worker-Ensures none active = tt
no_worker-Ensures (some a) active =
    elim (Bool-cases (a.revoked || not a.roles.worker || (active && a.paused))) [
      | inl t ↦ rw t tt
      | inr f ↦ rw f refl
    ]

module _ {F : Type 0} (s : RoleState F) (v : IsValid s) where
  -- On a valid role state, giving or taking a job gives a valid state or raises a
  -- RoleAuthorizationError.
  pub job-Keeps :
      (actor : RoleAssignment) (target : NodeId) (active : Bool)
      → Ensures IsRefusal IsValid (job s actor target active)
  unfolding job
  job-Keeps actor target active =
      bind-Ensures IsRefusal _ IsValid (control s actor) _ (control-Ensures s actor) λ actor_id _ _.
        bind-Ensures IsRefusal _ IsValid (no_worker (assignment_for s target) active) _
          (no_worker-Ensures (assignment_for s target) active)
          λ a _ known.
            let (found, wf, at_target) = current_facts s v target a known in
            replace-Ensures s target a (record a { has_active_job = active }) v found at_target
              (ground arith) (ground arith) (ground arith) IsRefusal (ground arith) (ground arith)

  -- On a valid role state, `revoke_capabilities` gives a valid state or raises a
  -- RoleAuthorizationError.
  pub revoke_capabilities-Keeps :
      (actor : RoleAssignment) (subject target : NodeId)
      → Ensures IsRefusal IsValid (revoke_capabilities s actor subject target)
  unfolding revoke_capabilities
  revoke_capabilities-Keeps actor subject target =
      bind-Ensures IsRefusal _ IsValid (control s actor) _ (control-Ensures s actor) λ actor_id _ _.
        init_role_state-Keeps IsRefusal _ (record {
          well_formed = v.well_formed;
          ids_distinct = v.ids_distinct;
          one_coordinator = v.one_coordinator;
          one_subcoordinator = v.one_subcoordinator;
          keys_distinct =
              distinct-map-filter grant_key (λ g. not (grant_key g == (subject, target)))
                s.capability_grants v.keys_distinct;
          grants_live =
              All-filter (IsLive s.assignments) (λ g. not (grant_key g == (subject, target)))
                s.capability_grants v.grants_live;
        })

-- the exceptions of `grant_capabilities`: a refusal, or that the grant itself is invalid
abbrev pub IsGrantError : Error → Type 0
IsGrantError e =
    IsRefusal e
    ⊎ (e ≡ value_error "invalid capability grant")
    ⊎ (e ≡ value_error "capability grant must expire after issuance")

-- the exceptions of `assign`: a refusal, or that the time of the change is not finite
abbrev pub IsAssignError : Error → Type 0
IsAssignError e = IsRefusal e ⊎ (e ≡ value_error "invalid role change time")

pub weaken :
    {A : Type 0} (E : Error → Type 0) (P : A → Type 0) (m : Result A)
    → ((e : Error) → IsRefusal e → E e)
    → Ensures IsRefusal P m
    → Ensures E P m
weaken E P (ok a) f h = h
weaken E P (err e) f h = f e h

init_grant-Ensures :
    {F : Type 0} ⦃fl : Floats F⦄ (g : CapabilityGrant F)
    → Ensures IsGrantError (λ h. h ≡ g) (init_grant g)
unfolding init_grant
init_grant-Ensures ⦃fl⦄ g =
    raise_if-Ensures IsGrantError (λ h. h ≡ g) _ _ _ (inr (inl refl))
      λ _.
        raise_if-Ensures IsGrantError (λ h. h ≡ g) (fl.le g.expires_at g.issued_at) _ (ok g)
          (inr (inr refl)) λ _. refl

module _ {F : Type 0} ⦃fl : Floats F⦄ (s : RoleState F) (v : IsValid s) where
  granted-IsValid :
      (g : CapabilityGrant F)
      → (is_inactive (assignment_for s g.subject)
          || not (has_subcoordinator (assignment_for s g.subject)))
        ≡ false
      → (is_inactive (assignment_for s g.target)
          || not (has_worker (assignment_for s g.target))
          || g.subject == g.target)
        ≡ false
      → IsValid (record s {
        capability_grants = without_grant g.subject g.target s.capability_grants ++ g ∷ [];
      })
  granted-IsValid g hs ht = record {
    well_formed = v.well_formed;
    ids_distinct = v.ids_distinct;
    one_coordinator = v.one_coordinator;
    one_subcoordinator = v.one_subcoordinator;
    keys_distinct =
        distinct-map-append_one grant_key (without_grant g.subject g.target s.capability_grants) g
          (contains-map-without (grant_key g) grant_key s.capability_grants)
          (distinct-map-filter grant_key (λ h. not (grant_key h == grant_key g)) s.capability_grants
            v.keys_distinct);
    grants_live =
        All-append (IsLive s.assignments) (without_grant g.subject g.target s.capability_grants)
          (g ∷ [])
          (All-filter (IsLive s.assignments) (λ h. not (grant_key h == grant_key g))
            s.capability_grants v.grants_live)
          (
            (
              ground (arith, assignment_for-eq s g.subject v),
              ground (arith, assignment_for-eq s g.target v),
            ),
            tt,
          );
  }

  -- On a valid role state, `grant_capabilities` gives a valid state, or raises a
  -- RoleAuthorizationError or a ValueError of the grant's constructor.
  pub grant_capabilities-Keeps :
      (actor : RoleAssignment) (subject target : NodeId) (permissions : PermissionSet)
      (now expires_at : F)
      → Ensures IsGrantError IsValid
          (grant_capabilities s actor subject target permissions now expires_at)
  unfolding grant_capabilities
  grant_capabilities-Keeps actor subject target permissions now expires_at =
      bind-Ensures IsGrantError _ IsValid (control s actor) _
        (weaken IsGrantError _ (control s actor) (λ e. inl) (control-Ensures s actor))
        λ actor_id _ _. raise_if-Ensures IsGrantError IsValid _ _ _ (inl tt) λ hs.
          raise_if-Ensures IsGrantError IsValid _ _ _ (inl tt) λ ht.
            bind-Ensures IsGrantError (λ h. h ≡ given) IsValid (init_grant given) _
              (init_grant-Ensures given)
              λ g _ same. init_role_state-Keeps IsGrantError _ (
                subst
                  (λ h. IsValid (record s {
                    capability_grants = without_grant subject target s.capability_grants ++ h ∷ [];
                  }))
                  (sym same) (granted-IsValid given hs ht))
    where
      given : CapabilityGrant F
      given = record {
        subject = subject;
        target = target;
        permissions = permissions;
        issued_at = now;
        expires_at = expires_at;
      }

module _ {F : Type 0} where
  -- What a pruning keeps is live.
  pub prune-IsLive :
      (l : List RoleAssignment) (gs : List (CapabilityGrant F))
      → distinct (ids l) ≡ true
      → All (IsLive l) (prune_capability_grants l gs)
  unfolding prune_capability_grants lookup
  prune-IsLive l [] d = tt
  prune-IsLive l (g ∷ gs) d =
      ground
        (arith, prune-IsLive l gs d, lookup-index g.subject l [] d, lookup-index g.target l [] d)

  pub prune-distinct :
      (l : List RoleAssignment) (gs : List (CapabilityGrant F))
      → distinct (map grant_key gs) ≡ true
      → distinct (map grant_key (prune_capability_grants l gs)) ≡ true
  unfolding prune_capability_grants
  prune-distinct l gs d = distinct-map-filter grant_key _ gs d

pub new_assignment-Ensures :
    (roles : RoleSet) (target : NodeId) (current : Option RoleAssignment)
    → roles.coordinator ≡ false
    → Ensures
        (λ _. ⊥)
        (λ a.
          IsWellFormed a
          × (a.node_id ≡ some target)
          × (a.revoked ≡ false)
          × (a.roles.coordinator ≡ false)
          × (a.roles.subcoordinator ≡ roles.subcoordinator))
        (new_assignment roles target current)
unfolding new_assignment init_assignment
new_assignment-Ensures roles target current h = ground arith

-- Where the target has no assignment, no Subcoordinator other than it means none.
pub count_of_none :
    (target : NodeId) (l : List RoleAssignment)
    → any (is_other_subcoordinator target) l ≡ false
    → any (has_id target) l ≡ false
    → count is_active_subcoordinator l ≡ 0
count_of_none target [] o h = refl
count_of_none target (a ∷ l) o h = ground (arith, count_of_none target l)

pub count_of_others :
    (target : NodeId) (cur : RoleAssignment) (l : List RoleAssignment)
    → any (is_other_subcoordinator target) l ≡ false
    → distinct (ids l) ≡ true
    → find_id target l ≡ some cur
    → count is_active_subcoordinator l ≡ to_ℕ (is_active_subcoordinator cur)
count_of_others target cur [] o d f = absurd (ground arith)
count_of_others target cur (a ∷ l) o d f =
    ground (arith, count_of_others target cur l, head_unique target a l d, count_of_none target l)
