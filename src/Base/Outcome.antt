-- ===== src/Base/Outcome.antt =====
-- What a call ends in: a value, a panic, or a loop that has used up its fuel.
use mathlib.Core.Path.{◌≡◌, refl}
use Prim.Native.Nat.{ℕ, ◌+◌, ◌*◌, ◌^◌}
use final.Base.Tests.{ltb, if◌then◌else◌}
use mathlib.Core.Option.{Option, none, some}

pub data Run {ℓ} (A : Type ℓ) : Type ℓ where
  panic no_fuel : Run A
  ok : A → Run A

-- What follows a call runs on its value.
infixl 5 ◌>>=◌
abbrev pub ◌>>=◌ {κ ℓ} : {A : Type κ} {B : Type ℓ} → Run A → (A → Run B) → Run B
panic >>= rest = panic
no_fuel >>= rest = no_fuel
ok value >>= rest = rest value

-- `Option::unwrap`, and indexing a map by a key
abbrev pub unwrap {ℓ} : {A : Type ℓ} → Option A → Run A
unwrap none = panic
unwrap (some a) = ok a

-- `a + b` on a `u32`, in a build with overflow checks
abbrev pub add_u32 : ℕ → ℕ → Run ℕ
add_u32 a b = if ltb (a + b) (2 ^ 32) then ok (a + b) else panic

-- `a + b` and `a * b` on a `usize`
abbrev pub add_usize : ℕ → ℕ → Run ℕ
add_usize a b = if ltb (a + b) (2 ^ 64) then ok (a + b) else panic

abbrev pub mul_usize : ℕ → ℕ → Run ℕ
mul_usize a b = if ltb (a * b) (2 ^ 64) then ok (a * b) else panic

-- Inversion of a bind that returns.
pub >>=-eq-ok {κ ℓ} :
    {A : Type κ} {B : Type ℓ} {result : B} (call : Run A) (rest : A → Run B)
    → (call >>= rest) ≡ ok result
    → (value : A) × (call ≡ ok value) × (rest value ≡ ok result)
>>=-eq-ok panic rest e = cc
>>=-eq-ok no_fuel rest e = cc
>>=-eq-ok (ok value) rest e = (value, refl, e)

pub ok-injective {ℓ} : {A : Type ℓ} {a b : A} → ok a ≡ ok b → a ≡ b
ok-injective h = cc

pub unwrap-eq-ok {ℓ} : {A : Type ℓ} (o : Option A) {a : A} → unwrap o ≡ ok a → o ≡ some a
unwrap-eq-ok none h = cc
unwrap-eq-ok (some a) h = cc

-- Calls that agree on each value that the first one can return, and the grouping of calls.
pub bind_cong {κ ℓ} :
    {A : Type κ} {B : Type ℓ} (call : Run A) (f g : A → Run B)
    → ((value : A) → call ≡ ok value → f value ≡ g value)
    → (call >>= f) ≡ (call >>= g)
bind_cong panic f g same = refl
bind_cong no_fuel f g same = refl
bind_cong (ok value) f g same = same value refl

pub bind_assoc {κ ℓ μ} :
    {A : Type κ} {B : Type ℓ} {C : Type μ} (call : Run A) (f : A → Run B) (g : B → Run C)
    → ((call >>= f) >>= g) ≡ (call >>= λ value. f value >>= g)
bind_assoc panic f g = refl
bind_assoc no_fuel f g = refl
bind_assoc (ok value) f g = refl
