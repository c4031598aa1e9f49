-- ===== src/Discovery/Endpoints/Choice.antt =====
-- `preferred_endpoint` of src/expra_connect/discovery/candidates.py.
use expra_connect.Prelude.{
  ◌≤◌, ◌≡◌, refl, sym, subst, string_eq, true, ok, List, [], ◌∷◌, if◌then◌else◌, filter, All, arith,
  Bool-cases, inl, inr,
}
use expra_connect.Discovery.Endpoints.{
  EndpointCandidate, endpoint_rank, ltb_rank, first_ranked, is_usable, prefer, preferred_endpoint,
  zero_if,
}

module _ {F : Type 0} where
  -- A usable endpoint, and one that succeeded before if any usable one did.
  pub record IsPreferred (l : List (EndpointCandidate F)) (e : EndpointCandidate F) : Type 0 where
    pub usable : is_usable e ≡ true
    pub successful : All (λ x. zero_if e.last_success ≤ zero_if x.last_success) (filter is_usable l)

  better-le :
      (a b : EndpointCandidate F)
      → (zero_if (if ltb_rank (endpoint_rank a) (endpoint_rank b) then a else b).last_success
          ≤ zero_if b.last_success)
        × (zero_if (if ltb_rank (endpoint_rank a) (endpoint_rank b) then a else b).last_success
            ≤ zero_if a.last_success)
  unfolding ltb_rank endpoint_rank
  better-le a b = (ground arith, ground arith)

  first_ranked-le :
      (best : EndpointCandidate F) (l : List (EndpointCandidate F))
      → (zero_if (first_ranked best l).last_success ≤ zero_if best.last_success)
        × All (λ x. zero_if (first_ranked best l).last_success ≤ zero_if x.last_success) l
  unfolding first_ranked
  first_ranked-le best [] = (omega arith, tt)
  first_ranked-le best (e ∷ l) =
      let (h, k) =
        first_ranked-le (if ltb_rank (endpoint_rank e) (endpoint_rank best) then e else best) l in
      let (b, c) = better-le e best in (omega (arith, h, b), (omega (arith, h, c), k))

  first_ranked-usable :
      (best : EndpointCandidate F) (l : List (EndpointCandidate F))
      → is_usable best ≡ true
      → All (λ x. is_usable x ≡ true) l
      → is_usable (first_ranked best l) ≡ true
  unfolding first_ranked
  first_ranked-usable best [] h k = h
  first_ranked-usable best (e ∷ l) h k =
      first_ranked-usable (if ltb_rank (endpoint_rank e) (endpoint_rank best) then e else best) l
        (elim (Bool-cases (ltb_rank (endpoint_rank e) (endpoint_rank best))) [
          | inl t ↦ rw t k.0
          | inr f ↦ rw f h
        ])
        k.1

  filter-usable :
      (l : List (EndpointCandidate F)) → All (λ x. is_usable x ≡ true) (filter is_usable l)
  filter-usable [] = tt
  filter-usable (e ∷ l) = elim (Bool-cases (is_usable e)) [
    | inl t ↦ rw t (t, filter-usable l)
    | inr f ↦ rw f (filter-usable l)
  ]

  prefer-IsPreferred :
      (l m : List (EndpointCandidate F)) (e : EndpointCandidate F)
      → m ≡ filter is_usable l
      → prefer m ≡ ok e
      → IsPreferred l e
  prefer-IsPreferred l [] e h p = absurd (ground arith)
  prefer-IsPreferred l (b ∷ m) e h p =
      let all = subst (All (λ x. is_usable x ≡ true)) (sym h) (filter-usable l) in
      let (c, k) = first_ranked-le b m in
      subst (IsPreferred l) {x = first_ranked b m} (ground arith) (record {
        usable = first_ranked-usable b m all.0 all.1;
        successful =
            subst (All (λ x. zero_if (first_ranked b m).last_success ≤ zero_if x.last_success)) h
              (c, k);
      })

  -- The endpoint that `preferred_endpoint` returns is usable, and if a usable endpoint succeeded
  -- before then so did the one returned, whatever their priorities and sources.
  pub preferred_endpoint-IsPreferred :
      (l : List (EndpointCandidate F)) (e : EndpointCandidate F)
      → preferred_endpoint l ≡ ok e
      → IsPreferred l e
  unfolding preferred_endpoint
  preferred_endpoint-IsPreferred l e p = prefer-IsPreferred l (filter is_usable l) e refl p
