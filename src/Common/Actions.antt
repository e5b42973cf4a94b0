-- ===== src/Common/Actions.antt =====
-- A call that works on shared state: what it ends in, and the state that it leaves, which is there
-- after an error too.
use rust_db.Common.{Outcome, ok, err, panic, Option, none, some, ◌≡◌, ap}

abbrev pub Action : Type 0 → Type 0 → Type 0 → Type 0
Action S E A = S → Outcome E A × S

module _ {S E A : Type 0} where
  abbrev pub pure : A → Action S E A
  pure a s = (ok a, s)

  abbrev pub fail : E → Action S E A
  fail e s = (err e, s)

  abbrev pub crash : Action S E A
  crash s = (panic, s)

  -- A result that does not touch the state.
  abbrev pub lift : Outcome E A → Action S E A
  lift r s = (r, s)

infixl 5 ◌>>=◌ ◌>>◌
abbrev pub ◌>>=◌ : {S E A B : Type 0} → Action S E A → (A → Action S E B) → Action S E B
◌>>=◌ m f s = let (r, t) = m s in elim r [ ok a ↦ f a t | err e ↦ (err e, t) | panic ↦ (panic, t) ]

abbrev pub ◌>>◌ : {S E B : Type 0} → Action S E (Unit {0}) → Action S E B → Action S E B
m >> k = m >>= λ _. k

-- `?` with a conversion of the error, and `.expect(..)` on the result of a call.
abbrev pub convert : {S E F A : Type 0} → (E → F) → Action S E A → Action S F A
convert g m s =
    let (r, t) = m s in elim r [ ok a ↦ (ok a, t) | err e ↦ (err (g e), t) | panic ↦ (panic, t) ]

abbrev pub expect_ok : {S E F A : Type 0} → Action S E A → Action S F A
expect_ok m s =
    let (r, t) = m s in elim r [ ok a ↦ (ok a, t) | err e ↦ (panic, t) | panic ↦ (panic, t) ]

abbrev pub expect_some : {S E A : Type 0} → Option A → Action S E A
expect_some none s = (panic, s)
expect_some (some a) s = (ok a, s)

-- A call with a known result: how its continuation, its conversion and its `expect` go on.
module _ {S E A : Type 0} where
  pub after_ok :
      {B : Type 0} (m : Action S E A) (f : A → Action S E B) (s t : S) (a : A)
      → m s ≡ (ok a, t)
      → (m >>= f) s ≡ f a t
  after_ok m f s t a e = ap (λ r. ((λ _. r) >>= f) s) e

  pub after_err :
      {B : Type 0} (m : Action S E A) (f : A → Action S E B) (s t : S) (x : E)
      → m s ≡ (err x, t)
      → (m >>= f) s ≡ (err x, t)
  after_err m f s t x e = ap (λ r. ((λ _. r) >>= f) s) e

  pub convert_ok :
      {F : Type 0} (g : E → F) (m : Action S E A) (s t : S) (a : A)
      → m s ≡ (ok a, t)
      → convert g m s ≡ (ok a, t)
  convert_ok g m s t a e = ap (λ r. convert g (λ _. r) s) e

  pub expect_ok-ok :
      {F : Type 0} (m : Action S E A) (s t : S) (a : A)
      → m s ≡ (ok a, t)
      → expect_ok {F = F} m s ≡ (ok a, t)
  expect_ok-ok {F} m s t a e = ap (λ r. expect_ok {F = F} (λ _. r) s) e
