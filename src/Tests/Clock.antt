-- ===== src/Tests/Clock.antt =====
-- Whole numbers as the times of tests: an instance of the interface.
use expra_connect.Prelude.{
  ℕ, ◌+◌, ◌*◌, ◌^◌, ◌≡◌, refl, true, not, ◌||◌, ltb, leb, nat_eq, if◌then◌else◌, none, some, arith,
  Floats,
}

pub nat_eq_refl : (a : ℕ) → nat_eq a a ≡ true
nat_eq_refl a = ground arith

pub leb_refl : (a : ℕ) → leb a a ≡ true
leb_refl a = ground arith

pub leb_total : (a b : ℕ) → (leb a b || leb b a) ≡ true
leb_total a b = ground arith

pub leb-not-ltb : (a b : ℕ) → leb a b ≡ not (ltb b a)
leb-not-ltb a b = ground arith

pub leb_trans : (a b c : ℕ) → leb a b ≡ true → leb b c ≡ true → leb a c ≡ true
leb_trans a b c h k = ground arith

pub leb-ltb : (a b c : ℕ) → leb a b ≡ true → ltb b c ≡ true → ltb a c ≡ true
leb-ltb a b c h k = ground arith

pub leb-add : (a d : ℕ) → leb a (a + d) ≡ true
leb-add a d = ground arith

instance abbrev pub seconds : Floats ℕ
seconds = record {
  is_finite = λ _. true;
  to_float = λ n. n;
  lt = ltb;
  le = leb;
  eq = nat_eq;
  add = λ a b. a + b;
  scale = λ a n. if ltb n 1024 then some (a * (2 ^ n)) else none;
  literal = λ n. n;
  is_finite-to_float = λ a. refl;
  eq_refl = λ a _. nat_eq_refl a;
  le_refl = λ a _. leb_refl a;
  le_total = λ a b _ _. leb_total a b;
  le-not-lt = λ a b _ _. leb-not-ltb a b;
  le_trans = λ a b c _ _ _ h k. leb_trans a b c h k;
  le-lt = λ a b c h k. leb-ltb a b c h k;
  le-add = λ a d _ _ _ _. leb-add a d;
}
