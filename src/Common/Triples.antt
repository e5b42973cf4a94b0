-- ===== src/Common/Triples.antt =====
-- What an action ends in, from what held before it: `Q` after a result and `I` after an error.
-- After a panic nothing is said.
use rust_db.Common.{Outcome, ok, err, panic}
use rust_db.Common.Actions.{Action, ◌>>=◌}

module _ {S E : Type 0} (I : S → Type 0) where
  abbrev pub Post : {A : Type 0} → (A → S → Type 0) → Outcome E A × S → Type 0
  Post Q (ok a, t) = Q a t
  Post Q (err e, t) = I t
  Post Q (panic, t) = Unit

  abbrev pub Triple : {A : Type 0} → (S → Type 0) → Action S E A → (A → S → Type 0) → Type 0
  Triple P m Q = (s : S) → P s → Post Q (m s)

  pub then_do :
      {A B : Type 0} (P : S → Type 0) (Q : A → S → Type 0) (R : B → S → Type 0) (m : Action S E A)
      (f : A → Action S E B)
      → Triple P m Q
      → ((a : A) → Triple (Q a) (f a) R)
      → Triple P (m >>= f) R
  then_do {A = A} P Q R m f first next s h = go (m s) (first s h)
    where
      go : (x : Outcome E A × S) → Post Q x → Post R (((λ _. x) >>= f) s)
      go (ok a, t) h = next a t h
      go (err e, t) h = h
      go (panic, t) h = h

  pub weaker :
      {A : Type 0} (P : S → Type 0) (Q R : A → S → Type 0) (m : Action S E A)
      → ((a : A) (t : S) → Q a t → R a t)
      → Triple P m Q
      → Triple P m R
  weaker {A = A} P Q R m f h s p = go (m s) (h s p)
    where
      go : (x : Outcome E A × S) → Post Q x → Post R x
      go (ok a, t) q = f a t q
      go (err e, t) q = q
      go (panic, t) q = tt
