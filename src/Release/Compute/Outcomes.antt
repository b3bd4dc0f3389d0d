-- ===== src/Release/Compute/Outcomes.antt =====
-- internal/release/compute.go: reasoning about outcomes that may be no result.
use dsh_work.Prelude.{◌≡◌, refl, Bool, true, false}
use dsh_work.Release.Version.{Result, ok, err}
use dsh_work.Release.Version.Parse.Shape.{Always}
use dsh_work.Release.Version.Parse.Printed.{}
use dsh_work.Release.Compute.{Outcome, done, refused, panics, ◌>>=◌, ◌>>◌, require, accept, must}

-- What holds of an outcome, if it is a result.
abbrev pub Ensures : {A : Type 0} → (A → Type 0) → Outcome A → Type 0
Ensures P (done a) = P a
Ensures P refused = Unit
Ensures P panics = Unit

pub Ensures-bind :
    {A B : Type 0} (P : A → Type 0) (Q : B → Type 0) (m : Outcome A) (f : A → Outcome B)
    → Ensures P m
    → ((a : A) → P a → Ensures Q (f a))
    → Ensures Q (m >>= f)
Ensures-bind P Q (done a) f h k = k a h
Ensures-bind P Q refused f h k = tt
Ensures-bind P Q panics f h k = tt

pub Ensures-then :
    {A B : Type 0} (Q : B → Type 0) (m : Outcome A) (f : A → Outcome B)
    → ((a : A) → m ≡ done a → Ensures Q (f a))
    → Ensures Q (m >>= f)
Ensures-then Q (done a) f k = k a refl
Ensures-then Q refused f k = tt
Ensures-then Q panics f k = tt

pub Ensures-require :
    {B : Type 0} (Q : B → Type 0) (b : Bool) (r : Outcome B)
    → (b ≡ true → Ensures Q r)
    → Ensures Q (require b >> r)
Ensures-require Q true r h = h refl
Ensures-require Q false r h = tt

pub Ensures-accept :
    {A : Type 0} (P : A → Type 0) (r : Result A) → Always P r → Ensures P (accept r)
Ensures-accept P (ok a) h = h
Ensures-accept P (err e) h = tt

pub Ensures-must : {A : Type 0} (P : A → Type 0) (r : Result A) → Always P r → Ensures P (must r)
Ensures-must P (ok a) h = h
Ensures-must P (err e) h = tt

pub Ensures-weaken :
    {A : Type 0} (P Q : A → Type 0) (m : Outcome A)
    → Ensures P m
    → ((a : A) → P a → Q a)
    → Ensures Q m
Ensures-weaken P Q (done a) h k = k a h
Ensures-weaken P Q refused h k = tt
Ensures-weaken P Q panics h k = tt
