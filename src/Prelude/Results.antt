-- ===== src/Prelude/Results.antt =====
-- Exceptions as values: the class that is raised, with its message.
use Prim.Native.String.{String}
use mathlib.Core.Path.{◌≡◌, refl, subst}
use mathlib.Core.Logic.{◌⊎◌, inl, inr}
use mathlib.Core.Bool.{Bool, true, false}

pub data Error : Type 0 where
  value_error type_error key_error permission_error : String → Error
  role_authorization_error fencing_error : String → Error
  remote_auth_error remote_authorization_error remote_execution_error : String → Error
  remote_protocol_error remote_unavailable_error : String → Error
  idempotency_collision handler_error pairing_busy persistence_error overflow_error : String → Error
  -- whatever a callback of the host raises
  callback_error : String → Error

pub data Result {ℓ} (A : Type ℓ) : Type ℓ where
  err : Error → Result A
  ok : A → Result A

infixl 5 ◌>>=◌ ◌>>◌
abbrev pub ◌>>=◌ {ℓ κ} : {A : Type ℓ} {B : Type κ} → Result A → (A → Result B) → Result B
err e >>= f = err e
ok a >>= f = f a

abbrev pub ◌>>◌ {ℓ κ} : {A : Type ℓ} {B : Type κ} → Result A → Result B → Result B
m >> k = m >>= λ _. k

-- if c: raise e
abbrev pub raise_if : Bool → Error → Result (Unit {0})
raise_if true e = err e
raise_if false e = ok tt

-- What holds of a value that is returned, and of an exception that is raised.
abbrev pub Ensures {ℓ} : {A : Type ℓ} → (Error → Type 0) → (A → Type 0) → Result A → Type 0
Ensures E P (ok a) = P a
Ensures E P (err e) = E e

pub bind-Ensures {ℓ κ} :
    {A : Type ℓ} {B : Type κ} (E : Error → Type 0) (Q : A → Type 0) (P : B → Type 0) (m : Result A)
    (f : A → Result B)
    → Ensures E Q m
    → ((a : A) → m ≡ ok a → Q a → Ensures E P (f a))
    → Ensures E P (m >>= f)
bind-Ensures E Q P (ok a) f h k = k a refl h
bind-Ensures E Q P (err e) f h k = h

pub raise_if-Ensures {κ} :
    {B : Type κ} (E : Error → Type 0) (P : B → Type 0) (b : Bool) (e : Error) (m : Result B)
    → E e
    → (b ≡ false → Ensures E P m)
    → Ensures E P (raise_if b e >> m)
raise_if-Ensures E P true e m h k = h
raise_if-Ensures E P false e m h k = k refl

pub Ensures-ok {ℓ} :
    {A : Type ℓ} (E : Error → Type 0) (P : A → Type 0) (m : Result A) (a : A)
    → Ensures E P m
    → m ≡ ok a
    → P a
Ensures-ok E P m a h e = subst (Ensures E P) e h

pub Result-cases : (r : Result (Unit {0})) → ((e : Error) × (r ≡ err e)) ⊎ (r ≡ ok tt)
Result-cases (ok u) = inr refl
Result-cases (err e) = inl (e, refl)

pub Result-split {ℓ} :
    {A : Type ℓ} (r : Result A) → ((e : Error) × (r ≡ err e)) ⊎ ((a : A) × (r ≡ ok a))
Result-split (ok a) = inr (a, refl)
Result-split (err e) = inl (e, refl)
