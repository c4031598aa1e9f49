-- ===== src/Remote/Service/Fencing.antt =====
-- The fence of `RemoteService` of src/expra_connect/remote/service.py over its updates.
use expra_connect.Prelude.{
  ℕ, ◌≤◌, suc, ◌≡◌, refl, ◌∙◌, String, string_eq, option_eq, ℕ_eq, ◌==◌, not, ◌&&◌, none, some, ok,
  err, remote_authorization_error, if◌then◌else◌, arith, inl, inr, Bool-cases, Result-split, ltb,
  nat_eq, same_refl, option_beq_iff, ◌≢◌,
}
use expra_connect.Cluster.Lease.{compare_digest}
use expra_connect.Remote.Service.{
  Fence, RoleFence, verify_role_fence, same_epoch_fence, new_fence, update_cluster_fence,
}

-- Updates for one cluster, each of which returns.
pub data Installs (cluster_id : String) (f : Fence) : Fence → Type 0 where
  here : Installs cluster_id f f
  next :
      {n m : Fence} (epoch : ℕ) (token : String)
      → Installs cluster_id f n
      → update_cluster_fence n cluster_id epoch token ≡ ok m
      → Installs cluster_id f m

-- A fence of the cluster at an epoch with a token.
pub record IsAt (f : Fence) (cluster_id : String) (epoch : ℕ) (token : String) : Type 0 where
  pub cluster : f.cluster_id ≡ some cluster_id
  pub at_epoch : f.coordinator_epoch ≡ some epoch
  pub with_token : f.fencing_token ≡ some token

-- The epoch is later, or both the epoch and the token are the same.
pub data IsLater (epoch : ℕ) (token : String) (e : ℕ) (t : String) : Type 0 where
  same : e ≡ epoch → t ≡ token → IsLater epoch token e t
  later : suc epoch ≤ e → IsLater epoch token e t

pub record IsAdvanced (cluster_id : String) (epoch : ℕ) (token : String) (n : Fence) : Type 0 where
  pub new_epoch : ℕ
  pub new_token : String
  pub is_at : IsAt n cluster_id new_epoch new_token
  pub is_later : IsLater epoch token new_epoch new_token

-- What an update of the same cluster does.
update_same_cluster :
    (f : Fence) (cluster_id : String) (epoch e : ℕ) (token t : String)
    → IsAt f cluster_id epoch token
    → update_cluster_fence f cluster_id e t ≡ (
        if ltb e epoch
        then err (remote_authorization_error "cannot install an older coordinator epoch")
        else if nat_eq e epoch
        then same_epoch_fence f t (some token)
        else ok (new_fence cluster_id e t))
unfolding update_cluster_fence
update_same_cluster f cluster_id epoch e token t i =
    rw i.at_epoch (rw i.cluster (rw i.with_token (ground (arith, same_refl cluster_id))))

same_epoch_keeps :
    (f n : Fence) (t token : String) → same_epoch_fence f t (some token) ≡ ok n → n ≡ f
same_epoch_keeps f n t token h = elim (Result-split (compare_digest t token)) [
  | inl (e, q) ↦ absurd (ground arith)
  | inr (b, q) ↦ ground (arith, q, h)
]

update-IsAdvanced :
    (f n : Fence) (cluster_id : String) (epoch e : ℕ) (token t : String)
    → IsAt f cluster_id epoch token
    → update_cluster_fence f cluster_id e t ≡ ok n
    → IsAdvanced cluster_id epoch token n
update-IsAdvanced f n cluster_id epoch e token t i h =
    let step = update_same_cluster f cluster_id epoch e token t i in
    elim (Bool-cases (ltb e epoch)) [
      | inl old ↦ absurd (ground (arith, step))
      | inr new ↦ elim (Bool-cases (nat_eq e epoch)) [
        | inl equal ↦
            let unchanged : n ≡ f = same_epoch_keeps f n t token (ground (arith, step)) in
            rw unchanged (record {
              new_epoch = epoch;
              new_token = token;
              is_at = i;
              is_later = same refl refl;
            })
        | inr greater ↦
            let installed : n ≡ new_fence cluster_id e t = ground (arith, step) in
            rw installed (record {
              new_epoch = e;
              new_token = t;
              is_at = record { cluster = refl; at_epoch = refl; with_token = refl };
              is_later = later (ground arith);
            })
      ]
    ]

IsLater-trans : (a b c : ℕ) (x y z : String) → IsLater a x b y → IsLater b y c z → IsLater a x c z
IsLater-trans a b c x y z (same e t) (same f u) = same (f ∙ e) (u ∙ t)
IsLater-trans a b c x y z (same e t) (later g) = later (omega (arith, e, g))
IsLater-trans a b c x y z (later g) (same e t) = later (omega (arith, e, g))
IsLater-trans a b c x y z (later g) (later h) = later (omega (arith, g, h))

-- x
pub Installs-IsAdvanced :
    (f : Fence) (cluster_id : String) (epoch : ℕ) (token : String) (n : Fence)
    → IsAt f cluster_id epoch token
    → Installs cluster_id f n
    → IsAdvanced cluster_id epoch token n
Installs-IsAdvanced f cluster_id epoch token n i here = record {
  new_epoch = epoch;
  new_token = token;
  is_at = i;
  is_later = same refl refl;
}
Installs-IsAdvanced f cluster_id epoch token n i (next {n = m} e t r h) =
    let before = Installs-IsAdvanced f cluster_id epoch token m i r in
    let after =
      update-IsAdvanced m n cluster_id before.new_epoch e before.new_token t before.is_at h in
    record {
      new_epoch = after.new_epoch;
      new_token = after.new_token;
      is_at = after.is_at;
      is_later =
          IsLater-trans epoch before.new_epoch after.new_epoch token before.new_token
            after.new_token before.is_later after.is_later;
    }

verified_epoch :
    (f : Fence) (r : RoleFence) (epoch : ℕ)
    → f.coordinator_epoch ≡ some epoch
    → verify_role_fence f r ≡ ok tt
    → r.epoch ≡ some epoch
unfolding verify_role_fence
verified_epoch f r epoch e h =
    elim (Bool-cases (not (f.cluster_id == none) && not (r.cluster_id == f.cluster_id))) [
      | inl other ↦ absurd (ground arith)
      | inr same_cluster ↦ elim (Bool-cases (r.epoch == some epoch)) [
        | inl current ↦ (option_beq_iff r.epoch (some epoch)).0 current
        | inr stale ↦ absurd (ground (arith, e))
      ]
    ]

IsLater-le : (a b : ℕ) (x y : String) → IsLater a x b y → a ≤ b
IsLater-le a b x y (same e t) = omega (arith, e)
IsLater-le a b x y (later g) = omega (arith, g)

-- If the fence of a service is at an epoch of a cluster with a token, then after any updates for
-- the same cluster a role operation with an epoch before that one is not let through.
pub old_epoch_is_refused :
    (f n : Fence) (cluster_id : String) (epoch old : ℕ) (token : String) (r : RoleFence)
    → IsAt f cluster_id epoch token
    → Installs cluster_id f n
    → r.epoch ≡ some old
    → suc old ≤ epoch
    → verify_role_fence n r ≢ ok tt
old_epoch_is_refused f n cluster_id epoch old token r i l e le h =
    let a = Installs-IsAdvanced f cluster_id epoch token n i l in
    let now = verified_epoch n r a.new_epoch a.is_at.at_epoch h in
    let at_least = IsLater-le epoch a.new_epoch token a.new_token a.is_later in
    ground (arith, now, e, le, at_least)
