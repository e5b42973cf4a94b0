-- ===== src/Common/Results.antt =====
-- What a Rust call ends in: a value, an error value of the function's error type, or a panic.
use mathlib.Core.Path.{◌≡◌, refl}
use mathlib.Core.Bool.{Bool, true, false}
use mathlib.Core.Option.{Option, none, some}

pub data Outcome (E : Type 0) (A : Type 0) : Type 0 where
  ok : A → Outcome E A
  err : E → Outcome E A
  panic : Outcome E A

-- The `?` operator.
infixl 5 ◌>>=◌ ◌>>◌
abbrev pub ◌>>=◌ : {E A B : Type 0} → Outcome E A → (A → Outcome E B) → Outcome E B
ok a >>= f = f a
err e >>= f = err e
panic >>= f = panic

abbrev pub ◌>>◌ : {E B : Type 0} → Outcome E (Unit {0}) → Outcome E B → Outcome E B
m >> k = m >>= λ _. k

-- `if !test { return Err(e) }`.
abbrev pub require : {E : Type 0} → Bool → E → Outcome E (Unit {0})
require true e = ok tt
require false e = err e

-- `.map_err(f)`.
abbrev pub map_err : {E F A : Type 0} → (E → F) → Outcome E A → Outcome F A
map_err f (ok a) = ok a
map_err f (err e) = err (f e)
map_err f panic = panic

-- `.ok_or(e)`, and `.expect(..)` or `.unwrap()` on an `Option`.
abbrev pub ok_or : {E A : Type 0} → Option A → E → Outcome E A
ok_or none e = err e
ok_or (some a) e = ok a

abbrev pub expect : {E A : Type 0} → Option A → Outcome E A
expect none = panic
expect (some a) = ok a

-- `.unwrap()` on a `Result`.
abbrev pub unwrap : {E F A : Type 0} → Outcome E A → Outcome F A
unwrap (ok a) = ok a
unwrap (err e) = panic
unwrap panic = panic

-- A chain that succeeds: its first step returned a value, and the rest went on from it.
pub bind-ok_inv :
    {E A C : Type 0} (next : A → Outcome E C) (c : C) (first : Outcome E A)
    → (first >>= next) ≡ ok c
    → (x : A) × (next x ≡ ok c) × (first ≡ ok x)
bind-ok_inv next c panic e = cc
bind-ok_inv next c (err r) e = cc
bind-ok_inv next c (ok x) e = (x, e, refl)
