-- ===== src/Connections/Retries.antt =====
-- Failures and the retry state of src/expra_connect/connections/state.py.
use expra_connect.Prelude.{
  ℕ, ◌+◌, ◌-◌, ◌≤◌, ◌⊎◌, ltb, min, Error, overflow_error, Option-cases, ◌≡◌, refl, subst, true,
  false, Option, none, some, Result, ok, err, value_error, Floats, List, [], ◌∷◌, length, All,
  arith, Bool-cases, inl, inr,
}
use expra_connect.Connections.{
  PeerFailure, timeout, connection_refused, route_failure, disappeared, authentication_failed,
  identity_changed, RetryState, Backoff, is_fatal, exponent, extra_seconds, delay, record_valid,
  record_failure, bad_seconds,
}

-- the failures after which the program tries again
pub data IsPassing : PeerFailure → Type 0 where
  timed_out : IsPassing timeout
  was_refused : IsPassing connection_refused
  lost_route : IsPassing route_failure
  has_gone : IsPassing disappeared

-- The exponent: one less than the number of failures so far, at most the largest one.
pub data IsExponent (most attempt e : ℕ) : Type 0 where
  grown : e + 1 ≡ attempt → e ≤ most → IsExponent most attempt e
  limited_to : e ≡ most → most + 1 ≤ attempt → IsExponent most attempt e

exponent-IsExponent :
    (most attempt : ℕ) → IsExponent most (attempt + 1) (exponent (attempt + 1) most)
exponent-IsExponent most attempt = elim (Bool-cases (ltb most ((attempt + 1) - 1))) [
  | inl h ↦ limited_to (ground (arith, h)) (ground (arith, h))
  | inr h ↦ grown (ground (arith, h)) (ground (arith, h))
]

failure_cases :
    (f : PeerFailure)
    → ((is_fatal f ≡ true) × ((f ≡ authentication_failed) ⊎ (f ≡ identity_changed)))
      ⊎ ((is_fatal f ≡ false) × IsPassing f)
failure_cases timeout = inr (refl, timed_out)
failure_cases connection_refused = inr (refl, was_refused)
failure_cases route_failure = inr (refl, lost_route)
failure_cases disappeared = inr (refl, has_gone)
failure_cases authentication_failed = inl (refl, inl refl)
failure_cases identity_changed = inl (refl, inr refl)

module _ {F : Type 0} ⦃fl : Floats F⦄ where
  -- A configuration that `record_failure` accepts, with the largest exponent.
  pub record IsConfigured (b : Backoff F) : Type 0 where
    pub most : ℕ
    pub limited : b.max_backoff_exponent ≡ some most
    pub base_fine : bad_seconds b.base_seconds ≡ false
    pub max_fine : bad_seconds b.max_seconds ≡ false

  -- `d` is the smaller one of the doubled base and the maximum.
  pub data IsSmaller (x most_seconds d : F) : Type 0 where
    doubled : d ≡ x → fl.lt x most_seconds ≡ true → IsSmaller x most_seconds d
    capped : d ≡ most_seconds → fl.lt x most_seconds ≡ false → IsSmaller x most_seconds d

  -- What the jitter adds: nothing where there is none, or where it is not positive.
  pub data IsExtra (jitter : Option (ℕ → F)) (attempt : ℕ) (y : F) : Type 0 where
    without_jitter : jitter ≡ none → y ≡ fl.literal 0 → IsExtra jitter attempt y
    positive :
        (j : ℕ → F)
        → jitter ≡ some j
        → fl.lt (fl.literal 0) (fl.to_float (j attempt)) ≡ true
        → y ≡ fl.to_float (j attempt)
        → IsExtra jitter attempt y
    floored :
        (j : ℕ → F)
        → jitter ≡ some j
        → fl.lt (fl.literal 0) (fl.to_float (j attempt)) ≡ false
        → y ≡ fl.literal 0
        → IsExtra jitter attempt y

  -- what a call that raises leaves of the schedule
  pub record IsKept (s : RetryState F) (out : Result (Unit {0}) × RetryState F) (e : Error)
      : Type 0 where
    pub raised : out.0 ≡ err e
    pub same_retry : out.1.automatic_retry ≡ s.automatic_retry
    pub same_schedule : out.1.next_attempt_at ≡ s.next_attempt_at

  -- What one accepted failure leaves of the schedule.
  pub data IsScheduled (s : RetryState F) (failure : PeerFailure) (now : F)
      (jitter : Option (ℕ → F)) (b : Backoff F) (most : ℕ) (out : Result (Unit {0}) × RetryState F)
      : Type 0 where
    stops :
        (failure ≡ authentication_failed) ⊎ (failure ≡ identity_changed)
        → out.0 ≡ ok tt
        → out.1.automatic_retry ≡ false
        → out.1.next_attempt_at ≡ none
        → IsScheduled s failure now jitter b most out
    overflows :
        (e : ℕ)
        → IsPassing failure
        → IsExponent most (s.attempt + 1) e
        → fl.scale b.base_seconds e ≡ none
        → IsKept s out (overflow_error "int too large to convert to float")
        → IsScheduled s failure now jitter b most out
    rejects :
        (y : F)
        → IsPassing failure
        → IsExtra jitter (s.attempt + 1) y
        → fl.is_finite y ≡ false
        → IsKept s out (value_error "retry jitter must be finite")
        → IsScheduled s failure now jitter b most out
    schedules :
        (e : ℕ) (x d y : F)
        → IsPassing failure
        → IsExponent most (s.attempt + 1) e
        → fl.scale b.base_seconds e ≡ some x
        → IsSmaller x b.max_seconds d
        → IsExtra jitter (s.attempt + 1) y
        → fl.is_finite y ≡ true
        → out.0 ≡ ok tt
        → out.1.automatic_retry ≡ true
        → out.1.next_attempt_at ≡ some (fl.add (fl.add now d) y)
        → IsScheduled s failure now jitter b most out

  pub record IsRecorded (s : RetryState F) (failure : PeerFailure) (now : F)
      (jitter : Option (ℕ → F)) (b : Backoff F) (most : ℕ) (out : Result (Unit {0}) × RetryState F)
      : Type 0 where
    pub counted : out.1.attempt ≡ s.attempt + 1
    pub named : out.1.last_failure ≡ some failure
    pub scheduled : IsScheduled s failure now jitter b most out

  min-IsSmaller : (x m : F) → IsSmaller x m (min fl.lt m x)
  min-IsSmaller x m = elim (Bool-cases (fl.lt x m)) [
    | inl h ↦ doubled (ground (arith, h)) h
    | inr h ↦ capped (ground (arith, h)) h
  ]

  extra_seconds-IsExtra :
      (jitter : Option (ℕ → F)) (attempt : ℕ)
      → IsExtra jitter attempt (extra_seconds jitter attempt)
  extra_seconds-IsExtra none attempt = without_jitter refl refl
  extra_seconds-IsExtra (some j) attempt =
      elim (Bool-cases (fl.lt (fl.literal 0) (fl.to_float (j attempt)))) [
        | inl h ↦ positive j refl h (rw h refl)
        | inr h ↦ floored j refl h (rw h refl)
      ]

  record_valid_facts :
      (s : RetryState F) (failure : PeerFailure) (now : F) (jitter : Option (ℕ → F)) (b : Backoff F)
      (most : ℕ)
      → IsRecorded s failure now jitter b most
          (record_valid s failure now jitter b.base_seconds b.max_seconds most)
  unfolding record_valid delay
  record_valid_facts s failure now jitter b most = elim (failure_cases failure) [
    | inl (h, k) ↦
        rw h (record { counted = refl; named = refl; scheduled = stops k refl refl refl })
    | inr (h, k) ↦
        rw h (elim (Option-cases (fl.scale b.base_seconds (exponent (s.attempt + 1) most))) [
          | inl o ↦
              rw (o, delay)
                (record {
                  counted = refl;
                  named = refl;
                  scheduled =
                      overflows (exponent (s.attempt + 1) most) k
                        (exponent-IsExponent most s.attempt) o
                        (record { raised = refl; same_retry = refl; same_schedule = refl });
                })
          | inr (x, o) ↦
              rw (o, delay)
                (elim (Bool-cases (fl.is_finite (extra_seconds jitter (s.attempt + 1)))) [
                  | inl f ↦ rw f (record {
                    counted = refl;
                    named = refl;
                    scheduled =
                        schedules (exponent (s.attempt + 1) most) x (min fl.lt b.max_seconds x)
                          (extra_seconds jitter (s.attempt + 1)) k
                          (exponent-IsExponent most s.attempt) o (min-IsSmaller x b.max_seconds)
                          (extra_seconds-IsExtra jitter (s.attempt + 1)) f refl refl refl;
                  })
                  | inr f ↦ rw f (record {
                    counted = refl;
                    named = refl;
                    scheduled =
                        rejects (extra_seconds jitter (s.attempt + 1)) k
                          (extra_seconds-IsExtra jitter (s.attempt + 1)) f
                          (record { raised = refl; same_retry = refl; same_schedule = refl });
                  })
                ])
        ])
  ]

  pub record_failure_lem :
      (s : RetryState F) (failure : PeerFailure) (now : F) (jitter : Option (ℕ → F)) (b : Backoff F)
      (c : IsConfigured b)
      → IsRecorded s failure now jitter b c.most (record_failure s failure now jitter b)
  unfolding record_failure
  record_failure_lem s failure now jitter b c =
      subst (IsRecorded s failure now jitter b c.most)
        (ground (arith, c.limited, c.base_fine, c.max_fine))
        (record_valid_facts s failure now jitter b c.most)

-- One call of `record_failure`.
pub record Call (F : Type 0) : Type 0 where
  pub failure : PeerFailure
  pub now : F
  pub jitter : Option (ℕ → F)
  pub backoff : Backoff F

module _ {F : Type 0} ⦃fl : Floats F⦄ where
  pub record_all : RetryState F → List (Call F) → RetryState F
  record_all s [] = s
  record_all s (c ∷ calls) =
      record_all (record_failure s c.failure c.now c.jitter c.backoff).1 calls

  -- Over any sequence of failures with configurations that are accepted, the attempt counter grows
  -- by one each, whether or not a call raised for its jitter.
  pub attempt-record_all :
      (s : RetryState F) (calls : List (Call F))
      → All (λ c. IsConfigured c.backoff) calls
      → (record_all s calls).attempt ≡ s.attempt + length calls
  unfolding record_all
  attempt-record_all s [] h = omega arith
  attempt-record_all s (c ∷ calls) h =
      let step = (record_failure_lem s c.failure c.now c.jitter c.backoff h.0).counted in
      omega (
        arith,
        attempt-record_all (record_failure s c.failure c.now c.jitter c.backoff).1 calls h.1,
        step,
      )
