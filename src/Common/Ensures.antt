-- ===== src/Common/Ensures.antt =====
-- Postconditions of code that may raise: what it returns, if it returns, meets the predicate. One
-- rule for each way to build such code.
use mathlib.Core.Path.{◌≡◌, refl}
use mathlib.Core.Bool.{Bool, true, false}
use smart_factory_monitor.Common.Outcome.{Result, ok, err, ◌>>=◌, ◌>>◌, guard, bind_inversion}

pub record Ensures {ℓ κ} {E A : Type ℓ} (P : A → Type κ) (r : Result E A) : Type (ℓ ⊔ κ) where
  pub holds : (a : A) → r ≡ ok a → P a

module _ {E A : Type 0} {P : A → Type 0} where
  Ensures-eq_ok : (r : Result E A) (a : A) → r ≡ ok a → P a → Ensures P r
  Ensures-eq_ok r a h p = record { holds = λ b e. let q : a ≡ b = cc in rw (← q) p }

  pub Ensures-ok : (a : A) → P a → Ensures P (let r : Result E A = ok a in r)
  Ensures-ok a p = Ensures-eq_ok (ok a) a refl p

  pub Ensures-err : (e : E) → Ensures P (let r : Result E A = err e in r)
  Ensures-err e = record { holds = λ a h. absurd (cc h) }

module _ {E A B : Type 0} {P : A → Type 0} {Q : B → Type 0} where
  pub Ensures-bind :
      (m : Result E A) (f : A → Result E B)
      → Ensures P m
      → ((a : A) → P a → Ensures Q (f a))
      → Ensures Q (m >>= f)
  Ensures-bind m f hm hf = record {
    holds = λ b e. let (a, p, q) = bind_inversion m f b e in (hf a (hm.holds a p)).holds b q;
  }

module _ {E A B : Type 0} {Q : B → Type 0} where
  -- The rest of the block may use what the first part returned.
  pub Ensures-step :
      (m : Result E A) (f : A → Result E B)
      → ((a : A) → m ≡ ok a → Ensures Q (f a))
      → Ensures Q (m >>= f)
  Ensures-step (ok a) f h = h a refl
  Ensures-step (err e) f h = Ensures-err e

module _ {E B : Type 0} {Q : B → Type 0} where
  -- After a passed guard its test is known.
  pub Ensures-guard :
      (t : Bool) (e : E) (k : Result E B) → (t ≡ true → Ensures Q k) → Ensures Q (guard t e >> k)
  Ensures-guard true e k h = h refl
  Ensures-guard false e k h = Ensures-err e

module _ {E A : Type 0} {P Q : A → Type 0} where
  pub Ensures-mono : (m : Result E A) → Ensures P m → ((a : A) → P a → Q a) → Ensures Q m
  Ensures-mono m h f = record { holds = λ a e. f a (h.holds a e) }
