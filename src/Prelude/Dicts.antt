-- ===== src/Prelude/Dicts.antt =====
-- Python's `dict`, in insertion order.
use mathlib.Core.Path.{◌≡◌, refl}
use mathlib.Core.Bool.{Bool, true, false}
use mathlib.Core.Option.{Option, none, some}
use mathlib.Core.List.{List, [], ◌∷◌, map}
use native.Mathlib.Omega.{arith}
use expra_connect.Prelude.Logic.{Eq, ◌==◌, if◌then◌else◌, Bool-cases as cases}
use expra_connect.Prelude.Lists.{filter}
use mathlib.Core.Logic.{inl, inr}

abbrev pub Dict : Type 0 → Type 0 → Type 0
Dict K V = List (K × V)

module _ {K V : Type 0} ⦃e : Eq K⦄ where
  -- d.get(k)
  unfoldable pub lookup : K → Dict K V → Option V
  lookup k [] = none
  lookup k ((j, v) ∷ d) = if j == k then some v else lookup k d

  -- d[k] = v
  unfoldable pub put : K → V → Dict K V → Dict K V
  put k v [] = (k, v) ∷ []
  put k v ((j, w) ∷ d) = if j == k then (j, v) ∷ d else (j, w) ∷ put k v d

  -- d.pop(k, None)
  unfoldable pub erase : K → Dict K V → Dict K V
  erase k [] = []
  erase k ((j, v) ∷ d) = let rest = erase k d in if j == k then rest else (j, v) ∷ rest

  -- k in d
  abbrev pub member : K → Dict K V → Bool
  member k d = elim (lookup k d) [ none ↦ false | some _ ↦ true ]

  pub lookup-put :
      (k j : K) (v : V) (d : Dict K V)
      → lookup j (put k v d) ≡ (if k == j then some v else lookup j d)
  unfolding lookup put
  lookup-put k j v [] = refl
  lookup-put k j v ((i, w) ∷ d) =
      ground (arith, e.same_iff k j, e.same_iff i k, e.same_iff i j, lookup-put k j v d)

  pub lookup-erase :
      (k j : K) (d : Dict K V) → lookup j (erase k d) ≡ (if k == j then none else lookup j d)
  unfolding lookup erase
  lookup-erase k j [] = ground arith
  lookup-erase k j ((i, w) ∷ d) =
      ground (arith, e.same_iff k j, e.same_iff i k, e.same_iff i j, lookup-erase k j d)

module _ {K V : Type 0} ⦃e : Eq K⦄ where
  -- A comprehension over a dict brings no key to it.
  pub lookup-filter-none :
      (k : K) (q : K × V → Bool) (d : Dict K V) → lookup k d ≡ none → lookup k (filter q d) ≡ none
  unfolding lookup
  lookup-filter-none k q [] h = h
  lookup-filter-none k q ((j, v) ∷ d) h = elim (cases (q (j, v))) [
    | inr f ↦ rw f (lookup-filter-none k q d (ground (arith, h)))
    | inl t ↦ rw t (ground (arith, h, lookup-filter-none k q d))
  ]

pub lookup-nil : {K V : Type 0} ⦃e : Eq K⦄ (k : K) → lookup {V = V} k [] ≡ none
unfolding lookup
lookup-nil k = refl

-- tuple(d.values()), tuple(d)
abbrev pub values : {K V : Type 0} → Dict K V → List V
values d = map (λ p. p.1) d

abbrev pub keys : {K V : Type 0} → Dict K V → List K
keys d = map (λ p. p.0) d
