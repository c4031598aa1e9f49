-- ===== src/Remote/Service/Current.antt =====
-- Who a `RemoteService` of src/expra_connect/remote/service.py serves.
use expra_connect.Prelude.{
  ℕ, ◌+◌, ◌≤◌, ◌≡◌, refl, string_eq, option_eq, ℕ_eq, ◌==◌, Bool, true, false, ◌&&◌, Option, none,
  some, Result, ok, err, remote_authorization_error, List, Dict, if◌then◌else◌, Floats, arith, inl,
  inr, Bool-cases, Result-split,
}
use expra_connect.Identity.{NodeId, NodePermission, PermissionSet, permits, is_empty}
use expra_connect.Cluster.Models.{CapabilityGrant}
use expra_connect.Remote.Service.{
  ServiceGrant, ServiceRequest, RemoteService, required_permission, has_capability, common,
  caller_grant, grant_snapshot, assert_grant_snapshot_current, update_grants,
  update_cluster_capability_grants, cluster_grant, pair_permissions, effective, authorize_required,
  authorize_request,
}

permits-common :
    (a b : PermissionSet) (p : NodePermission)
    → permits (common a b) p ≡ (permits a p && permits b p)
unfolding permits common
permits-common a b NodePermission.read_state = refl
permits-common a b NodePermission.remote_management = refl
permits-common a b NodePermission.process_termination = refl
permits-common a b NodePermission.process_force_termination = refl
permits-common a b NodePermission.cleanup = refl

module _ {F : Type 0} ⦃fl : Floats F⦄ where
  -- One replacement of the grants.
  pub data Update (s : RemoteService F) (n : RemoteService F) : Type 0 where
    of_peers : (grants : Dict NodeId (ServiceGrant F)) → update_grants s grants ≡ ok n → Update s n
    of_cluster :
        (grants : List (CapabilityGrant F))
        → n ≡ update_cluster_capability_grants s grants
        → Update s n

  pub data Updates (s : RemoteService F) : RemoteService F → Type 0 where
    here : Updates s s
    next : {n m : RemoteService F} → Updates s n → Update n m → Updates s m

  Update-version : (s n : RemoteService F) → Update s n → n.grant_version ≡ s.grant_version + 1
  unfolding update_grants update_cluster_capability_grants
  Update-version s n (of_peers grants e) = ground arith
  Update-version s n (of_cluster grants e) = ground arith

  Updates-version : (s n : RemoteService F) → Updates s n → s.grant_version ≤ n.grant_version
  Updates-version s n here = omega arith
  Updates-version s n (next {n = m} r u) =
      omega (arith, Updates-version s m r, Update-version m n u)

  snapshot_version :
      (s : RemoteService F) (caller : Option NodeId) (now : F) (g : Option (ServiceGrant F)) (v : ℕ)
      → grant_snapshot s caller now ≡ ok (g, v)
      → v ≡ s.grant_version
  unfolding grant_snapshot
  snapshot_version s caller now g v h =
      elim (Result-split (if s.grant_mode then caller_grant s caller now else ok none)) [
        | inl (e, q) ↦ absurd (ground arith)
        | inr (o, q) ↦ ground arith
      ]

  -- A grant that was read for a request is refused as changed after the grants of the peers or of
  -- the cluster were replaced once or more.
  pub updated_snapshot_is_stale :
      (s u n : RemoteService F) (caller : Option NodeId) (now later : F)
      (g : Option (ServiceGrant F)) (v : ℕ)
      → grant_snapshot s caller now ≡ ok (g, v)
      → Update s u
      → Updates u n
      → assert_grant_snapshot_current n g v later
        ≡ err (remote_authorization_error "caller permission changed")
  unfolding assert_grant_snapshot_current
  updated_snapshot_is_stale s u n caller now later g v h first rest =
      let differ : (v == n.grant_version) ≡ false = ground (
        arith,
        snapshot_version s caller now g v h,
        Update-version s u first,
        Updates-version u n rest,
      ) in
      rw differ refl

  -- The grant of the cluster, if there is one, gives the permission too.
  pub data Overlaps (p : NodePermission) : Option (CapabilityGrant F) → Type 0 where
    no_grant : Overlaps p none
    in_grant : (g : CapabilityGrant F) → permits g.permissions p ≡ true → Overlaps p (some g)

  -- What an authorized request has.
  pub record IsAuthorized (s : RemoteService F) (r : ServiceRequest)
      (grant : Option (ServiceGrant F)) (now : F) (result : Option (CapabilityGrant F))
      : Type 0 where
    pub permission : NodePermission
    pub required : required_permission r.op ≡ some permission
    pub capable : has_capability s.capabilities permission ≡ true
    pub of_pair : permits (pair_permissions s grant) permission ≡ true
    pub result_is : result ≡ cluster_grant s r.caller_node_id now
    pub of_cluster : Overlaps permission result

  effective-permits :
      (p q : PermissionSet) (o : Option (CapabilityGrant F)) (required : NodePermission)
      → effective p o ≡ ok q
      → permits q required ≡ true
      → (permits p required ≡ true) × Overlaps required o
  effective-permits p q none required h k = (ground arith, no_grant)
  effective-permits p q (some g) required h k =
      let c = permits-common p g.permissions required in
      elim (Bool-cases (is_empty (common p g.permissions))) [
        | inl e ↦ absurd (ground arith)
        | inr e ↦
            let same : q ≡ common p g.permissions = ground arith in
            (ground (arith, k, same, c), in_grant g (ground (arith, k, same, c)))
      ]

  required-IsAuthorized :
      (s : RemoteService F) (r : ServiceRequest) (grant : Option (ServiceGrant F)) (now : F)
      (surface : Option (NodeId → Bool → Result (Unit {0}))) (o : Option NodePermission)
      (result : Option (CapabilityGrant F))
      → required_permission r.op ≡ o
      → authorize_required s r grant now surface o ≡ ok result
      → IsAuthorized s r grant now result
  required-IsAuthorized s r grant now surface none result e h = absurd (ground arith)
  required-IsAuthorized s r grant now surface (some p) result e h =
      elim (Bool-cases (has_capability s.capabilities p)) [
        | inr w ↦ absurd (ground arith)
        | inl capable ↦
            elim (Result-split
              (effective (pair_permissions s grant) (cluster_grant s r.caller_node_id now))) [
                | inl (x, w) ↦ absurd (ground arith)
                | inr (q, w) ↦ elim (Bool-cases (permits q p)) [
                  | inr v ↦ absurd (ground arith)
                  | inl v ↦
                      let both =
                        effective-permits (pair_permissions s grant) q
                          (cluster_grant s r.caller_node_id now) p w v in
                      let it : result ≡ cluster_grant s r.caller_node_id now =
                        ground (arith, capable, w, v, h) in
                      record {
                        permission = p;
                        required = e;
                        capable = capable;
                        of_pair = both.0;
                        result_is = it;
                        of_cluster = rw it both.1;
                      }
                ]
              ]
      ]

  -- A request that is authorized has an operation that is known, whose capability the node has and
  -- whose permission the caller's grant has; the result is the grant of the cluster for the caller,
  -- and if there is one it has the permission too.
  pub authorize_request-IsAuthorized :
      (s : RemoteService F) (r : ServiceRequest) (grant : Option (ServiceGrant F)) (now : F)
      (surface : Option (NodeId → Bool → Result (Unit {0}))) (result : Option (CapabilityGrant F))
      → authorize_request s r grant now surface ≡ ok result
      → IsAuthorized s r grant now result
  unfolding authorize_request
  authorize_request-IsAuthorized s r grant now surface result h =
      required-IsAuthorized s r grant now surface (required_permission r.op) result refl h
