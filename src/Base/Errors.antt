-- ===== src/Base/Errors.antt =====
-- The `int` that a kernel function returns: 0, a negative error code, or a positive number that a
-- callback should not have returned; and output parameters.
use Prim.Native.Nat.{ℕ}
use mathlib.Core.Bool.{Bool, true, false}
use mathlib.Core.Option.{Option, none, some}
use mathlib.Core.Path.{◌≡◌, refl, ap, fun_ext}
use native.Mathlib.Omega.{arith}
use mathlib.Core.Logic.{◌⊎◌, inl, inr}

-- The error codes that the source returns by name; `other` is any other that a callback returns.
pub data Errno : Type 0 where
  eperm eio eagain enomem ebusy enodev einval efbig enospc erange enoent eproto eloop : Errno
  ebadmsg eoverflow emsgsize eprotonosupport eopnotsupp enotconn etimedout ehostdown : Errno
  ealready estale eremoteio enolink : Errno
  other : ℕ → Errno

pub data Status : Type 0 where
  ok : Status
  err : Errno → Status
  positive : ℕ → Status

-- `ret` used as a condition.
abbrev pub is_ok : Status → Bool
is_ok ok = true
is_ok (err e) = false
is_ok (positive n) = false

-- `ret > 0 ? -EIO : ret`, also written `ret < 0 ? ret : -EIO` where `ret` is not 0.
abbrev pub positive_as : Errno → Status → Status
positive_as d ok = ok
positive_as d (err e) = err e
positive_as d (positive n) = err d

-- `if (ret) return ret;` before the rest, with the state of that moment.
abbrev pub proceed {ℓ} : {S : Type ℓ} → Status × S → (S → Status × S) → Status × S
proceed (ok, s) f = f s
proceed (err e, s) f = (err e, s)
proceed (positive n, s) f = (positive n, s)

-- An output parameter: `none` is a null pointer, `some v` points to the value `v`.
abbrev pub Out {ℓ} : Type ℓ → Type ℓ
Out A = Option A

abbrev pub is_null {ℓ} : {A : Type ℓ} → Option A → Bool
is_null none = true
is_null (some v) = false

-- `*out = v`.
abbrev pub store {ℓ} : {A : Type ℓ} → Out A → A → Out A
store none v = none
store (some w) v = some v

-- The outcome of a computation before it is stored: a value, or the error that is returned.
pub data Result {ℓ} (A : Type ℓ) : Type ℓ where
  done : A → Result A
  fail : Errno → Result A

infixl 5 ◌>>=◌ ◌>>◌
abbrev pub ◌>>=◌ {ℓ κ} : {A : Type ℓ} {B : Type κ} → Result A → (A → Result B) → Result B
done a >>= f = f a
fail e >>= f = fail e

abbrev pub ◌>>◌ {ℓ} : {B : Type ℓ} → Result (Unit {0}) → Result B → Result B
m >> k = m >>= λ _. k

-- `if (test) return -e;`
abbrev pub refuse : Bool → Errno → Result (Unit {0})
refuse true e = fail e
refuse false e = done tt

-- The end of a function that writes `*out` only when it succeeds.
abbrev pub finish {ℓ} : {A : Type ℓ} → Result A → Out A → Status × Out A
finish (done a) out = (ok, store out a)
finish (fail e) out = (err e, out)

-- To split on an outcome and keep the equation.
pub Result-cases {ℓ} :
    {A : Type ℓ} (r : Result A) → ((a : A) × (r ≡ done a)) ⊎ ((e : Errno) × (r ≡ fail e))
Result-cases (done a) = inl (a, refl)
Result-cases (fail e) = inr (e, refl)

-- A bind that succeeds is a value that the rest accepts.
pub >>=-eq-done {ℓ κ} :
    {A : Type ℓ} {B : Type κ} (m : Result A) (f : A → Result B) {b : B}
    → (m >>= f) ≡ done b
    → (a : A) × (m ≡ done a) × (f a ≡ done b)
>>=-eq-done (done a) f h = (a, refl, h)
>>=-eq-done (fail e) f h = cc

-- A successful end stores the value through a pointer that is not null.
pub finish-ok {ℓ} :
    {A : Type ℓ} (r : Result A) (old w : A) → finish r (some old) ≡ (ok, some w) → r ≡ done w
finish-ok (done a) old w h = ground arith
finish-ok (fail e) old w h = ground arith

pub proceed_assoc {ℓ} :
    {S : Type ℓ} (r : Status × S) (f g : S → Status × S)
    → proceed (proceed r f) g ≡ proceed r (λ s. proceed (f s) g)
proceed_assoc (ok, s) f g = refl
proceed_assoc (err e, s) f g = refl
proceed_assoc (positive n, s) f g = refl

pub proceed_ext {ℓ} :
    {S : Type ℓ} (r : Status × S) (f g : S → Status × S)
    → ((s : S) → f s ≡ g s)
    → proceed r f ≡ proceed r g
proceed_ext r f g h = ap (proceed r) (fun_ext h)

-- A chain that succeeds went through its first part.
pub proceed-ok {ℓ} :
    {S : Type ℓ} (r : Status × S) (f : S → Status × S) (t : S)
    → proceed r f ≡ (ok, t)
    → (u : S) × (r ≡ (ok, u)) × (f u ≡ (ok, t))
proceed-ok (ok, u) f t h = (u, refl, h)
proceed-ok (err e, u) f t h = ground arith
proceed-ok (positive n, u) f t h = ground arith

-- `if (ret) ...; ...` where the two ways continue differently; the first function continues after
-- 0, the second has the result that is not 0.
abbrev pub checked {ℓ κ} : {A : Type ℓ} {B : Type κ} → Status × A → (A → B) → (Status → A → B) → B
checked (ok, a) go stop = go a
checked (err e, a) go stop = stop (err e) a
checked (positive n, a) go stop = stop (positive n) a

-- Both ways of `checked`, each with what it knows of the call.
pub checked-cases {ℓ κ μ} :
    {A : Type ℓ} {B : Type κ} (P : B → Type μ) (r : Status × A) (go : A → B) (stop : Status → A → B)
    → ((a : A) → r ≡ (ok, a) → P (go a))
    → ((ret : Status) (a : A) → r ≡ (ret, a) → is_ok ret ≡ false → P (stop ret a))
    → P (checked r go stop)
checked-cases P (ok, a) go stop f g = f a refl
checked-cases P (err e, a) go stop f g = g (err e) a refl refl
checked-cases P (positive n, a) go stop f g = g (positive n) a refl refl
