-- ===== src/Prelude/Numbers.antt =====
-- Python's numbers as the program uses them for times: an interface, with the laws of the order
-- and of addition that hold for finite numbers.
use Prim.Native.Nat.{ℕ}
use mathlib.Core.Path.{◌≡◌}
use mathlib.Core.Bool.{Bool, true, false, not, ◌||◌}
use mathlib.Core.Option.{Option}
use mathlib.Core.Logic.{◌↔◌}
use native.Mathlib.Omega.{arith}
use expra_connect.Prelude.Logic.{ltb, nat_eq, Eq, if◌then◌else◌}

pub record Floats (F : Type 0) : Type 0 where
  -- math.isfinite(x); an int that no float can hold counts as not finite
  pub is_finite : F → Bool
  -- float(x)
  pub to_float : F → F
  -- x < y, x <= y, x == y
  pub lt : F → F → Bool
  pub le : F → F → Bool
  pub eq : F → F → Bool
  pub add : F → F → F
  -- x * 2 ** n, which raises OverflowError (`none`) where 2 ** n is too large for the float x
  pub scale : F → ℕ → Option F
  -- the float literal n.0
  pub literal : ℕ → F
  pub is_finite-to_float : (a : F) → is_finite (to_float a) ≡ is_finite a
  pub eq_refl : (a : F) → is_finite a ≡ true → eq a a ≡ true
  pub le_refl : (a : F) → is_finite a ≡ true → le a a ≡ true
  pub le_total : (a b : F) → is_finite a ≡ true → is_finite b ≡ true → (le a b || le b a) ≡ true
  pub le-not-lt : (a b : F) → is_finite a ≡ true → is_finite b ≡ true → le a b ≡ not (lt b a)
  pub le_trans :
      (a b c : F)
      → is_finite a ≡ true
      → is_finite b ≡ true
      → is_finite c ≡ true
      → le a b ≡ true
      → le b c ≡ true
      → le a c ≡ true
  pub le-lt : (a b c : F) → le a b ≡ true → lt b c ≡ true → lt a c ≡ true
  -- rounding never takes a sum of floats below the first, when the second is not negative
  pub le-add :
      (a d : F)
      → is_finite a ≡ true
      → is_finite d ≡ true
      → is_finite (add (to_float a) (to_float d)) ≡ true
      → le d (literal 0) ≡ false
      → le (to_float a) (add (to_float a) (to_float d)) ≡ true

-- max(a, b): the first argument unless the second is greater
abbrev pub max {ℓ} : {A : Type ℓ} → (A → A → Bool) → A → A → A
max lt a b = if lt a b then b else a

-- min(a, b): the first argument unless the second is less
abbrev pub min {ℓ} : {A : Type ℓ} → (A → A → Bool) → A → A → A
min lt a b = if lt b a then b else a

-- Python's `int`, where it may be negative: `negsuc n` is -(n + 1).
pub data ℤ : Type 0 where
  pos negsuc : ℕ → ℤ

abbrev pub ltb_int : ℤ → ℤ → Bool
ltb_int (pos m) (pos n) = ltb m n
ltb_int (pos m) (negsuc n) = false
ltb_int (negsuc m) (pos n) = true
ltb_int (negsuc m) (negsuc n) = ltb n m

abbrev pub eq_int : ℤ → ℤ → Bool
eq_int (pos m) (pos n) = nat_eq m n
eq_int (pos m) (negsuc n) = false
eq_int (negsuc m) (pos n) = false
eq_int (negsuc m) (negsuc n) = nat_eq m n

pub eq_int_iff : (a b : ℤ) → (eq_int a b ≡ true) ↔ (a ≡ b)
eq_int_iff (pos m) (pos n) = ground arith
eq_int_iff (pos m) (negsuc n) = ground arith
eq_int_iff (negsuc m) (pos n) = ground arith
eq_int_iff (negsuc m) (negsuc n) = ground arith

instance abbrev pub int_eq : Eq ℤ
int_eq = record { same = eq_int; same_iff = eq_int_iff }
