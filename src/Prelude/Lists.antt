-- ===== src/Prelude/Lists.antt =====
-- Lists under Boolean tests, as comprehensions, `any`, `sum`, `next` and `set` use them.
use Prim.Native.Nat.{ℕ, suc, ◌+◌, ◌≤◌}
use mathlib.Core.Path.{◌≡◌, refl, subst}
use mathlib.Core.Logic.{inl, inr}
use mathlib.Core.Bool.{Bool, true, false, not, ◌&&◌, ◌||◌}
use mathlib.Core.Option.{Option, none, some}
use mathlib.Core.List.{List, [], ◌∷◌, ◌++◌, map}
use native.Mathlib.Omega.{arith}
use expra_connect.Prelude.Logic.{Eq, ◌==◌, if◌then◌else◌, Bool-cases as cases}

-- A Boolean as 0 or 1.
abbrev pub to_ℕ : Bool → ℕ
to_ℕ true = 1
to_ℕ false = 0

module _ {ℓ} {A : Type ℓ} where
  abbrev pub length : List A → ℕ
  length [] = 0
  length (x ∷ xs) = suc (length xs)

  -- [x for x in xs if p(x)]
  abbrev pub filter : (A → Bool) → List A → List A
  filter p [] = []
  filter p (x ∷ xs) = let rest = filter p xs in if p x then x ∷ rest else rest

  -- any(p(x) for x in xs)
  abbrev pub any : (A → Bool) → List A → Bool
  any p [] = false
  any p (x ∷ xs) = p x || any p xs

  -- sum(p(x) for x in xs)
  abbrev pub count : (A → Bool) → List A → ℕ
  count p [] = 0
  count p (x ∷ xs) = to_ℕ (p x) + count p xs

  -- next((x for x in xs if p(x)), None)
  abbrev pub find? : (A → Bool) → List A → Option A
  find? p [] = none
  find? p (x ∷ xs) = let rest = find? p xs in if p x then some x else rest

  abbrev pub All {κ} : (A → Type κ) → List A → Type κ
  All P [] = Unit
  All P (x ∷ xs) = P x × All P xs

  pub any_of_find? : (p : A → Bool) (xs : List A) (x : A) → find? p xs ≡ some x → any p xs ≡ true
  any_of_find? p [] x h = ground arith
  any_of_find? p (y ∷ xs) x h = ground (arith, any_of_find? p xs x)

  pub find?_holds : (p : A → Bool) (xs : List A) (x : A) → find? p xs ≡ some x → p x ≡ true
  find?_holds p [] x h = ground arith
  find?_holds p (y ∷ xs) x h = ground (arith, find?_holds p xs x)

  pub find?-of_any :
      (p q : A → Bool) (xs : List A) (x : A) → find? p xs ≡ some x → q x ≡ true → any q xs ≡ true
  find?-of_any p q [] x h k = ground arith
  find?-of_any p q (y ∷ xs) x h k = ground (arith, find?-of_any p q xs x)

  pub find?-none : (p : A → Bool) (xs : List A) → find? p xs ≡ none → any p xs ≡ false
  find?-none p [] h = refl
  find?-none p (y ∷ xs) h = ground (arith, find?-none p xs)

  pub All-find? {κ} :
      (P : A → Type κ) (p : A → Bool) (xs : List A) (x : A) → All P xs → find? p xs ≡ some x → P x
  All-find? P p [] x h e = absurd (ground arith)
  All-find? P p (y ∷ xs) x h e = elim (cases (p y)) [
    | inl t ↦ subst P (ground arith) h.0
    | inr f ↦ All-find? P p xs x h.1 (ground arith)
  ]

  pub count-filter-le : (p q : A → Bool) (xs : List A) → count p (filter q xs) ≤ count p xs
  count-filter-le p q [] = omega arith
  count-filter-le p q (x ∷ xs) = ground (arith, count-filter-le p q xs)

  pub All-filter {κ} :
      (P : A → Type κ) (q : A → Bool) (xs : List A) → All P xs → All P (filter q xs)
  All-filter P q [] h = h
  All-filter P q (x ∷ xs) h = elim (cases (q x)) [
    | inl t ↦ rw t (h.0, All-filter P q xs h.1)
    | inr f ↦ rw f (All-filter P q xs h.1)
  ]

  pub All-append {κ} : (P : A → Type κ) (xs ys : List A) → All P xs → All P ys → All P (xs ++ ys)
  All-append P [] ys hx hy = hy
  All-append P (x ∷ xs) ys hx hy = (hx.0, All-append P xs ys hx.1 hy)

  pub All-map_with {κ} :
      (P Q : A → Type κ) (xs : List A) → ((x : A) → P x → Q x) → All P xs → All Q xs
  All-map_with P Q [] f h = h
  All-map_with P Q (x ∷ xs) f h = (f x h.0, All-map_with P Q xs f h.1)

  -- What a filter keeps passed its test.
  pub All-filter_with {κ} :
      (P Q : A → Type κ) (q : A → Bool) (xs : List A)
      → ((x : A) → P x → q x ≡ true → Q x)
      → All P xs
      → All Q (filter q xs)
  All-filter_with P Q q [] f h = h
  All-filter_with P Q q (x ∷ xs) f h = elim (cases (q x)) [
    | inl t ↦ rw t (f x h.0 t, All-filter_with P Q q xs f h.1)
    | inr e ↦ rw e (All-filter_with P Q q xs f h.1)
  ]

  pub count-append : (p : A → Bool) (xs ys : List A) → count p (xs ++ ys) ≡ count p xs + count p ys
  count-append p [] ys = omega arith
  count-append p (x ∷ xs) ys = omega (arith, count-append p xs ys)

-- `x in xs`, and the test `len(set(xs)) == len(xs)`: no value stands twice.
module _ {ℓ} {A : Type ℓ} ⦃e : Eq A⦄ where
  abbrev pub contains : A → List A → Bool
  contains a [] = false
  contains a (x ∷ xs) = x == a || contains a xs

  abbrev pub distinct : List A → Bool
  distinct [] = true
  distinct (x ∷ xs) = not (contains x xs) && distinct xs

  -- xs | {a} on a set
  abbrev pub insert : A → List A → List A
  insert a xs = if contains a xs then xs else a ∷ xs

  pub contains-insert :
      (a b : A) (xs : List A) → contains b (insert a xs) ≡ (a == b || contains b xs)
  contains-insert a b xs = ground (arith, e.same_iff a b)

  pub contains-filter :
      (a : A) (p : A → Bool) (xs : List A)
      → contains a xs ≡ false
      → contains a (filter p xs) ≡ false
  contains-filter a p [] h = refl
  contains-filter a p (x ∷ xs) h = ground (arith, contains-filter a p xs)

module _ {ℓ κ} {A : Type ℓ} {B : Type κ} ⦃e : Eq B⦄ where
  pub contains-map-filter :
      (b : B) (f : A → B) (q : A → Bool) (xs : List A)
      → contains b (map f xs) ≡ false
      → contains b (map f (filter q xs)) ≡ false
  contains-map-filter b f q [] h = refl
  contains-map-filter b f q (x ∷ xs) h = ground (arith, contains-map-filter b f q xs)

  pub distinct-map-filter :
      (f : A → B) (q : A → Bool) (xs : List A)
      → distinct (map f xs) ≡ true
      → distinct (map f (filter q xs)) ≡ true
  distinct-map-filter f q [] h = refl
  distinct-map-filter f q (x ∷ xs) h =
      ground (arith, distinct-map-filter f q xs, contains-map-filter (f x) f q xs)

  pub contains-map-append_one :
      (b : B) (f : A → B) (xs : List A) (y : A)
      → contains b (map f (xs ++ y ∷ [])) ≡ (contains b (map f xs) || f y == b)
  contains-map-append_one b f [] y = ground arith
  contains-map-append_one b f (x ∷ xs) y = ground (arith, contains-map-append_one b f xs y)

  pub distinct-map-append_one :
      (f : A → B) (xs : List A) (y : A)
      → contains (f y) (map f xs) ≡ false
      → distinct (map f xs) ≡ true
      → distinct (map f (xs ++ y ∷ [])) ≡ true
  distinct-map-append_one f [] y h d = refl
  distinct-map-append_one f (x ∷ xs) y h d = ground (
    arith,
    distinct-map-append_one f xs y,
    contains-map-append_one (f x) f xs y,
    e.same_iff (f x) (f y),
    e.same_iff (f y) (f x),
  )

  -- A filter by the key leaves none with the key.
  pub contains-map-without :
      (b : B) (f : A → B) (xs : List A)
      → contains b (map f (filter (λ x. not (f x == b)) xs)) ≡ false
  contains-map-without b f [] = refl
  contains-map-without b f (x ∷ xs) = ground (arith, contains-map-without b f xs)
