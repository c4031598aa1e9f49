-- ===== src/Cluster/Lease/Renewal.antt =====
-- `renew_lease` of src/expra_connect/cluster/roles.py.
use expra_connect.Prelude.{
  ◌≡◌, refl, sym, subst, string_eq, option_eq, pair_eq, ℕ_eq, ◌==◌, ◌&&◌, false, not, Option, none,
  some, arith, Bool-cases, inl, inr, Result, ok, err, Error, fencing_error, value_error, type_error,
  String, Ensures, bind-Ensures, raise_if-Ensures, raise_if, ◌>>=◌, ◌>>◌, Floats, max,
}
use text.Mathlib.TextEquality.{eq_iff}
use expra_connect.Identity.{NodeId}
use expra_connect.Cluster.Models.{CoordinatorEpoch, init_epoch}
use expra_connect.Cluster.RoleState.{Moment, number, other}
use expra_connect.Cluster.Lease.{is_ascii, compare_digest, valid_time, renew_lease}

bind_last :
    {A : Type 0} (E : Error → Type 0) (P : A → Type 0) (m : Result A) (a : A)
    → Ensures E (λ y. y ≡ a) m
    → P a
    → Ensures E P m
bind_last E P (ok b) a h p = subst P (sym h) p
bind_last E P (err e) a h p = h

module _ {F : Type 0} ⦃fl : Floats F⦄ where
  -- What a renewal has checked and what it changes.
  pub record IsRenewal (e : CoordinatorEpoch F) (coordinator_id : NodeId) (token : Option String)
      (now : Moment F) (lease : Moment F) (e' : CoordinatorEpoch F) : Type 0 where
    pub owner : coordinator_id ≡ e.coordinator_id
    pub holds_token : token ≡ some e.fencing_token
    pub current : F
    pub at_time : valid_time now "heartbeat time is invalid" ≡ ok current
    pub duration : F
    pub for_time : valid_time lease "lease duration is invalid" ≡ ok duration
    pub positive : fl.le duration (fl.literal 0) ≡ false
    pub unexpired : fl.le e.lease_expires_at current ≡ false
    pub same_epoch : e'.epoch ≡ e.epoch
    pub same_owner : e'.coordinator_id ≡ e.coordinator_id
    pub same_token : e'.fencing_token ≡ e.fencing_token
    pub issued : e'.issued_at ≡ max fl.lt e.issued_at current
    pub expires : e'.lease_expires_at ≡ max fl.lt e.lease_expires_at (fl.add current duration)

  -- The exceptions of a renewal: a FencingError, a TypeError where a token is not ASCII, or that
  -- the renewed epoch is invalid.
  abbrev pub IsRenewalError : CoordinatorEpoch F → Option String → Error → Type 0
  IsRenewalError e token (fencing_error m) = Unit
  IsRenewalError e (some token) (type_error m) =
      (is_ascii e.fencing_token && is_ascii token) ≡ false
  IsRenewalError e token x = x ≡ value_error "invalid coordinator epoch"

  valid_time-Returns :
      (e : CoordinatorEpoch F) (token : String) (now : Moment F) (field : String)
      → Ensures
          (IsRenewalError e (some token))
          (λ t. valid_time now field ≡ ok t)
          (valid_time now field)
  unfolding valid_time
  valid_time-Returns e token (number x) field = elim (Bool-cases (fl.is_finite x)) [
    | inl t ↦ ground arith
    | inr f ↦ ground arith
  ]
  valid_time-Returns e token other field = tt

  compare_digest-Returns :
      (e : CoordinatorEpoch F) (token : String)
      → Ensures
          (IsRenewalError e (some token))
          (λ same. same ≡ (e.fencing_token == token))
          (compare_digest e.fencing_token token)
  unfolding compare_digest
  compare_digest-Returns e token = elim (Bool-cases (is_ascii e.fencing_token && is_ascii token)) [
    | inl t ↦ rw t refl
    | inr f ↦ rw f f
  ]

  init_epoch-Returns :
      (e x : CoordinatorEpoch F) (token : String)
      → Ensures (IsRenewalError e (some token)) (λ y. y ≡ x) (init_epoch x)
  unfolding init_epoch
  init_epoch-Returns e x token =
      raise_if-Ensures (IsRenewalError e (some token)) (λ y. y ≡ x) _ _ (ok x) refl λ _. refl

  -- the rest of `renew_lease`, once the owner is checked
  renewed_by :
      (e : CoordinatorEpoch F) (coordinator_id : NodeId) (token : String) (now lease : Moment F)
      → coordinator_id ≡ e.coordinator_id
      → Ensures
          (IsRenewalError e (some token))
          (IsRenewal e coordinator_id (some token) now lease)
          (do
            same ← compare_digest e.fencing_token token
            raise_if (not same) (fencing_error "heartbeat fencing token is stale")
            current ← valid_time now "heartbeat time is invalid"
            duration ← valid_time lease "lease duration is invalid"
            raise_if (fl.le duration (fl.literal 0)) (fencing_error "lease duration is invalid")
            raise_if
                (fl.le e.lease_expires_at current)
                (fencing_error "coordinator lease has expired")
            init_epoch (record e {
              issued_at = max fl.lt e.issued_at current;
              lease_expires_at = max fl.lt e.lease_expires_at (fl.add current duration);
            }))
  renewed_by e coordinator_id token now lease own =
      bind-Ensures (IsRenewalError e (some token)) _
        (IsRenewal e coordinator_id (some token) now lease) (compare_digest e.fencing_token token) _
        (compare_digest-Returns e token)
        λ same _ is_same.
          raise_if-Ensures (IsRenewalError e (some token))
            (IsRenewal e coordinator_id (some token) now lease) (not same) _ _ tt
            λ holds.
              bind-Ensures (IsRenewalError e (some token)) _
                (IsRenewal e coordinator_id (some token) now lease)
                (valid_time now "heartbeat time is invalid") _
                (valid_time-Returns e token now "heartbeat time is invalid")
                λ current at _.
                  bind-Ensures (IsRenewalError e (some token)) _
                    (IsRenewal e coordinator_id (some token) now lease)
                    (valid_time lease "lease duration is invalid") _
                    (valid_time-Returns e token lease "lease duration is invalid")
                    λ duration for _.
                      raise_if-Ensures (IsRenewalError e (some token))
                        (IsRenewal e coordinator_id (some token) now lease)
                        (fl.le duration (fl.literal 0)) _ _ tt
                        λ positive.
                          raise_if-Ensures (IsRenewalError e (some token))
                            (IsRenewal e coordinator_id (some token) now lease)
                            (fl.le e.lease_expires_at current) _ _ tt
                            λ unexpired.
                              let renewed : CoordinatorEpoch F = record e {
                                issued_at = max fl.lt e.issued_at current;
                                lease_expires_at =
                                    max fl.lt e.lease_expires_at (fl.add current duration);
                              } in
                              bind_last (IsRenewalError e (some token))
                                (IsRenewal e coordinator_id (some token) now lease)
                                (init_epoch renewed) renewed (init_epoch-Returns e renewed token)
                                (record {
                                  owner = own;
                                  holds_token = ground (arith, eq_iff e.fencing_token token);
                                  current = current;
                                  at_time = at;
                                  duration = duration;
                                  for_time = for;
                                  positive = positive;
                                  unexpired = unexpired;
                                  same_epoch = refl;
                                  same_owner = refl;
                                  same_token = refl;
                                  issued = refl;
                                  expires = refl;
                                })

  -- `renew_lease` raises a FencingError, a TypeError where one of the tokens is not ASCII, or the
  -- ValueError of an invalid epoch; or the caller is the coordinator, holds the token and comes
  -- before the lease has expired, and number, coordinator and token stay while the two times are
  -- the later of old and new.
  pub renew_lease-Ensures :
      (e : CoordinatorEpoch F) (coordinator_id : NodeId) (token : Option String)
      (now lease : Moment F)
      → Ensures
          (IsRenewalError e token)
          (IsRenewal e coordinator_id token now lease)
          (renew_lease e coordinator_id token now lease)
  unfolding renew_lease
  renew_lease-Ensures e coordinator_id none now lease = tt
  renew_lease-Ensures e coordinator_id (some token) now lease =
      elim (Bool-cases (e.coordinator_id == coordinator_id)) [
        | inl own ↦ rw own (renewed_by e coordinator_id token now lease (sym ((eq_iff _ _).0 own)))
        | inr other_owner ↦ rw other_owner tt
      ]
