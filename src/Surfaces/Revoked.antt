-- ===== src/Surfaces/Revoked.antt =====
-- Access to a surface of src/expra_connect/surfaces/registry.py after a source was revoked.
use expra_connect.Prelude.{
  ℕ, ◌≡◌, refl, ◌∙◌, String, string_eq, pair_eq, ◌==◌, Bool, true, false, Option, none, some, ok,
  err, permission_error, List, [], ◌∷◌, Dict, lookup, member, put, erase, All, if◌then◌else◌,
  Floats, arith, Bool-cases, Result-split, inl, inr, lookup-filter-none, lookup-put, lookup-erase,
  lookup-nil,
}
use expra_connect.Cluster.RoleState.{Moment}
use expra_connect.Surfaces.{
  SurfaceAccess, access_eq, SurfaceGrant, GrantKey, SurfaceRegistry, access_of, validate_id,
  action_handlers, register, without_surface, revoke_peer, without_source, revoke_source,
  clear_grants, new_grant, grant_peer, grant_cluster, is_valid, has_cluster_grant,
  authorized_handler,
}

if_none : {A : Type 0} (b : Bool) (o : Option A) → o ≡ none → (if b then none else o) ≡ none
if_none true o h = refl
if_none false o h = h

module _ {F : Type 0} where
  lookup-without_source :
      (source : String) (k : String × SurfaceAccess) (d : Dict GrantKey (SurfaceGrant F))
      → lookup (source, k) (without_source source d) ≡ none
  unfolding lookup
  lookup-without_source source k [] = refl
  lookup-without_source source k ((j, g) ∷ d) = ground (arith, lookup-without_source source k d)

  erased_none :
      (j k : GrantKey) (d : Dict GrantKey (SurfaceGrant F))
      → lookup k d ≡ none
      → lookup k (erase j d) ≡ none
  erased_none j k d h = lookup-erase j k d ∙ if_none (j == k) (lookup k d) h

  put-none :
      (owner source : String) (j k : String × SurfaceAccess) (g : SurfaceGrant F)
      (d : Dict GrantKey (SurfaceGrant F))
      → (owner == source) ≡ false
      → lookup (source, k) d ≡ none
      → lookup (source, k) (put (owner, j) g d) ≡ none
  put-none owner source j k g d other h = lookup-put (owner, j) (source, k) g d ∙ rw other h

  -- No grant of the source is left.
  pub record IsRevoked (r : SurfaceRegistry F) (source : String) : Type 0 where
    pub no_peer : (k : String × SurfaceAccess) → lookup (source, k) r.peer_grants ≡ none
    pub no_cluster : (k : String × SurfaceAccess) → lookup (source, k) r.cluster_grants ≡ none

  revoke_source-IsRevoked :
      (r : SurfaceRegistry F) (source : String) → IsRevoked (revoke_source r source) source
  unfolding revoke_source
  revoke_source-IsRevoked r source = record {
    no_peer = λ k. lookup-without_source source k r.peer_grants;
    no_cluster = λ k. lookup-without_source source k r.cluster_grants;
  }

module _ {F : Type 0} ⦃fl : Floats F⦄ where
  -- A method that returns and gives no grant to the source.
  pub data Change (source : String) (r n : SurfaceRegistry F) : Type 0 where
    registers :
        (surface_id : String) (read_handler : ℕ) (review_handler : Option ℕ)
        (actions : List (String × ℕ))
        → register r surface_id read_handler review_handler actions ≡ ok n
        → Change source r n
    grants_peer :
        (peer surface_id access : String) (expires_at : Option (Moment F))
        → (peer == source) ≡ false
        → grant_peer r peer surface_id access expires_at ≡ ok n
        → Change source r n
    grants_cluster :
        (owner surface_id access : String) (expires_at : Option (Moment F))
        → (owner == source) ≡ false
        → grant_cluster r (some owner) surface_id access expires_at ≡ ok n
        → Change source r n
    revokes_peer :
        (peer surface_id : String) (access : Option String)
        → revoke_peer r peer surface_id access ≡ ok n
        → Change source r n
    revokes_source : (owner : String) → n ≡ revoke_source r owner → Change source r n
    clears : n ≡ clear_grants r → Change source r n

  pub data Changes (source : String) (r : SurfaceRegistry F) : SurfaceRegistry F → Type 0 where
    here : Changes source r r
    next : {n m : SurfaceRegistry F} → Changes source r n → Change source n m → Changes source r m

  -- What each change does to the grants.
  registered_grants :
      (r n : SurfaceRegistry F) (surface_id : String) (h : ℕ) (v : Option ℕ) (l : List (String × ℕ))
      → register r surface_id h v l ≡ ok n
      → (n.peer_grants ≡ r.peer_grants) × (n.cluster_grants ≡ r.cluster_grants)
  unfolding register
  registered_grants r n surface_id h v l e =
      elim (Result-split (validate_id surface_id "invalid surface id")) [
        | inl (f, q) ↦ absurd (ground arith)
        | inr (u, q) ↦ elim (Bool-cases (member surface_id r.definitions)) [
          | inl known ↦ absurd (ground arith)
          | inr new ↦ elim (Result-split (action_handlers l [])) [
            | inl (f, w) ↦ absurd (ground arith)
            | inr (d, w) ↦ (ground (arith, e, q, new, w), ground (arith, e, q, new, w))
          ]
        ]
      ]

  granted_peer :
      (r n : SurfaceRegistry F) (peer surface_id access : String) (x : Option (Moment F))
      → grant_peer r peer surface_id access x ≡ ok n
      → (g : SurfaceGrant F) × (n
          ≡ record r { peer_grants = put (peer, (surface_id, g.access)) g r.peer_grants })
  unfolding grant_peer
  granted_peer r n peer surface_id access x e =
      elim (Result-split (new_grant r peer surface_id access x false)) [
        | inl (f, q) ↦ absurd (ground arith)
        | inr (g, q) ↦ (g, ground arith)
      ]

  granted_cluster :
      (r n : SurfaceRegistry F) (owner surface_id access : String) (x : Option (Moment F))
      → grant_cluster r (some owner) surface_id access x ≡ ok n
      → (g : SurfaceGrant F) × (n
          ≡ record r { cluster_grants = put (owner, (surface_id, g.access)) g r.cluster_grants })
  unfolding grant_cluster
  granted_cluster r n owner surface_id access x e =
      elim (Result-split (new_grant r owner surface_id access x true)) [
        | inl (f, q) ↦ absurd (ground arith)
        | inr (g, q) ↦ (g, ground arith)
      ]

  revoke_peer-IsRevoked :
      (source : String) (r n : SurfaceRegistry F) (peer surface_id : String) (a : Option String)
      → revoke_peer r peer surface_id a ≡ ok n
      → IsRevoked r source
      → IsRevoked n source
  unfolding revoke_peer
  revoke_peer-IsRevoked source r n peer surface_id none e i =
      let it : n ≡ record r { peer_grants = without_surface peer surface_id r.peer_grants } =
        ground (arith, e) in
      rw it (record {
        no_peer = λ k. lookup-filter-none (source, k) _ r.peer_grants (i.no_peer k);
        no_cluster = i.no_cluster;
      })
  revoke_peer-IsRevoked source r n peer surface_id (some access) e i =
      elim (Result-split (access_of access)) [
        | inl (f, q) ↦ absurd (ground arith)
        | inr (a, q) ↦
            let it : n ≡ record r { peer_grants = erase (peer, (surface_id, a)) r.peer_grants } =
              ground (arith, e, q) in
            rw it (record {
              no_peer =
                  λ k. erased_none (peer, (surface_id, a)) (source, k) r.peer_grants (i.no_peer k);
              no_cluster = i.no_cluster;
            })
      ]

  Change-IsRevoked :
      (source : String) (r n : SurfaceRegistry F)
      → Change source r n
      → IsRevoked r source
      → IsRevoked n source
  unfolding revoke_source clear_grants
  Change-IsRevoked source r n (registers surface_id h v l e) i =
      let k = registered_grants r n surface_id h v l e in
      record { no_peer = λ j. rw k.0 (i.no_peer j); no_cluster = λ j. rw k.1 (i.no_cluster j) }
  Change-IsRevoked source r n (grants_peer peer surface_id access x other e) i =
      let g = granted_peer r n peer surface_id access x e in
      rw g.1 (record {
        no_peer = λ j. put-none peer source _ j g.0 r.peer_grants other (i.no_peer j);
        no_cluster = i.no_cluster;
      })
  Change-IsRevoked source r n (grants_cluster owner surface_id access x other e) i =
      let g = granted_cluster r n owner surface_id access x e in
      rw g.1 (record {
        no_peer = i.no_peer;
        no_cluster = λ j. put-none owner source _ j g.0 r.cluster_grants other (i.no_cluster j);
      })
  Change-IsRevoked source r n (revokes_peer peer surface_id a e) i =
      revoke_peer-IsRevoked source r n peer surface_id a e i
  Change-IsRevoked source r n (revokes_source owner e) i = rw e (record {
    no_peer = λ k. lookup-filter-none (source, k) _ r.peer_grants (i.no_peer k);
    no_cluster = λ k. lookup-filter-none (source, k) _ r.cluster_grants (i.no_cluster k);
  })
  Change-IsRevoked source r n (clears e) i =
      rw e
        (record { no_peer = λ k. lookup-nil (source, k); no_cluster = λ k. lookup-nil (source, k) })

  Changes-IsRevoked :
      (source : String) (r n : SurfaceRegistry F)
      → Changes source r n
      → IsRevoked r source
      → IsRevoked n source
  Changes-IsRevoked source r n here i = i
  Changes-IsRevoked source r n (next {n = m} l c) i =
      Change-IsRevoked source m n c (Changes-IsRevoked source r m l i)

  no_cluster_grant :
      (r : SurfaceRegistry F) (source surface_id : String) (a : SurfaceAccess) (now : F)
      (l : List String)
      → IsRevoked r source
      → All (λ x. x ≡ source) l
      → has_cluster_grant r surface_id a now l ≡ false
  unfolding has_cluster_grant is_valid
  no_cluster_grant r source surface_id a now [] i h = refl
  no_cluster_grant r source surface_id a now (x ∷ l) i h =
      rw h.0
        (rw (i.no_cluster (surface_id, a)) (no_cluster_grant r source surface_id a now l i h.1))

  -- After a source was revoked, and through any methods that give it no grant, its access to any
  -- surface under a valid kind of access is refused, directly and by the cluster where the only
  -- cluster source is itself.
  pub revoked_source_is_refused :
      (r n : SurfaceRegistry F) (source surface_id access : String) (act : Option String)
      (cluster_sources : List String) (now : F) (a : SurfaceAccess)
      → Changes source (revoke_source r source) n
      → access_of access ≡ ok a
      → All (λ x. x ≡ source) cluster_sources
      → authorized_handler n source surface_id access act cluster_sources now
        ≡ err (permission_error "surface access is not authorized")
  unfolding authorized_handler is_valid
  revoked_source_is_refused r n source surface_id access act cluster_sources now a l q own =
      let i =
        Changes-IsRevoked source (revoke_source r source) n l (revoke_source-IsRevoked r source) in
      rw q (
        rw (i.no_peer (surface_id, a))
          (rw (no_cluster_grant n source surface_id a now cluster_sources i own) refl))
