-- ===== src/Cluster/Failover/Publish.antt =====
-- The outcomes of `_commit` in src/expra_connect/cluster/failover.py, and of what commits.
use expra_connect.Prelude.{
  ◌≡◌, refl, none, some, Result, ok, err, inl, inr, Error, Result-cases, Ensures, ◌∷◌,
}
use expra_connect.Cluster.RoleState.{RoleState}
use expra_connect.Cluster.RoleState.Valid.{IsValid}
use expra_connect.Cluster.Failover.{FailoverCoordinator, Persist, commit, commit_result}

-- `Quiet` is what is returned with no change, `Done` what is returned with which new state.
pub data Outcome {F A : Type 0} (persist : Persist F) (c : FailoverCoordinator F)
    (Quiet : A → Type 0) (Done : A → RoleState F → Type 0)
    : Result A × FailoverCoordinator F → Type 0 where
  raised : (e : Error) → Outcome persist c Quiet Done (err e, c)
  declined : (a : A) → Quiet a → Outcome persist c Quiet Done (ok a, c)
  volatile :
      (a : A) (s : RoleState F)
      → persist ≡ none
      → IsValid s
      → Done a s
      → Outcome persist c Quiet Done (ok a, record c { state = s })
  persisted :
      (a : A) (s : RoleState F) (write : RoleState F → Result (Unit {0}))
      → persist ≡ some write
      → write s ≡ ok tt
      → IsValid s
      → Done a s
      → Outcome persist c Quiet Done (ok a, record { state = s; persisted = s ∷ c.persisted })

module _ {F A : Type 0} (persist : Persist F) (c : FailoverCoordinator F) (Quiet : A → Type 0)
    (Done : A → RoleState F → Type 0) where
  pub commit_result-Outcome :
      (r : Result (RoleState F × A)) (E : Error → Type 0)
      → Ensures E (λ p. IsValid p.0 × Done p.1 p.0) r
      → Outcome persist c Quiet Done (commit_result persist r c)
  unfolding commit
  commit_result-Outcome (err e) E h = raised e
  commit_result-Outcome (ok (s, a)) E (v, d) = finish persist refl
    where
      finish :
          (o : Persist F)
          → persist ≡ o
          → Outcome persist c Quiet Done (commit_result o (ok (s, a)) c)
      finish none e = volatile a s e v d
      finish (some write) e = elim (Result-cases (write s)) [
        | inl (x, failed) ↦ rw failed (raised x)
        | inr done ↦ rw done (persisted a s write e done v d)
      ]
