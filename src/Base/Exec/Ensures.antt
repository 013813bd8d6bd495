-- ===== src/Base/Exec/Ensures.antt =====
-- What a method that may raise makes sure of: from a state with `P` it returns a value `a` in a
-- state with `Q a`, or raises in a state with `E`. One rule for each way to build a method.
use mathlib.Core.Path.{◌≡◌, refl}
use mathlib.Core.Bool.{Bool, true, false}
use file_extractor.Base.Tests.{if◌then◌else◌}
use file_extractor.Base.Errors.{Error}
use file_extractor.Base.Exec.{
  Result, ok, raised, Exec, pure, raise, attempt, proceed, ends, finally, within, ◌>>=◌,
}

abbrev pub Post {ℓ κ} : {S A : Type ℓ} → (A → S → Type κ) → (S → Type κ) → Result A × S → Type κ
Post Q E (ok a, s) = Q a s
Post Q E (raised e, s) = E s

pub record Ensures {ℓ κ} {S A : Type ℓ} (P : S → Type κ) (m : Exec S A) (Q : A → S → Type κ)
    (E : S → Type κ) : Type (ℓ ⊔ κ) where
  pub at : (s : S) → P s → Post Q E (m s)

-- Weaker claims for both ways.
pub Post-weaken {ℓ κ} :
    {S A : Type ℓ} {Q R : A → S → Type κ} {E F : S → Type κ} (r : Result A × S)
    → ((a : A) (s : S) → Q a s → R a s)
    → ((s : S) → E s → F s)
    → Post Q E r
    → Post R F r
Post-weaken (ok a, s) f g p = f a s p
Post-weaken (raised e, s) f g p = g s p

-- `P` is kept, whether the method returns or raises.
pub record Keeps {ℓ κ} {S A : Type ℓ} (P : S → Type κ) (m : Exec S A) : Type (ℓ ⊔ κ) where
  pub at : (s : S) → P s → P (m s).1

-- What `attempt` returns: the value or the exception, each with what it came with.
abbrev pub Either {ℓ κ} : {S A : Type ℓ} → (A → S → Type κ) → (S → Type κ) → Result A → S → Type κ
Either Q E (ok a) s = Q a s
Either Q E (raised e) s = E s

module _ {ℓ κ} {S A : Type ℓ} {P : S → Type κ} where
  pub Ensures-Keeps :
      (E : S → Type κ) (m : Exec S A) → Keeps P m → ((s : S) → P s → E s) → Ensures P m (λ _. P) E
  Ensures-Keeps E m h out = record { at = λ s p. reached (m s) (h.at s p) }
    where
      reached : (r : Result A × S) → P r.1 → Post (λ _. P) E r
      reached (ok a, s) p = p
      reached (raised e, s) p = out s p

  -- `attempt` raises nothing.
  pub Ensures-attempt_Keeps :
      (F : S → Type κ) (m : Exec S A) → Keeps P m → Ensures P (attempt m) (λ _. P) F
  Ensures-attempt_Keeps F m h = record { at = λ s p. h.at s p }

  pub Keeps-if : (b : Bool) (m n : Exec S A) → Keeps P m → Keeps P n → Keeps P (if b then m else n)
  Keeps-if true m n hm hn = hm
  Keeps-if false m n hm hn = hn

-- What holds both ways holds of the state.
pub Post_state {ℓ κ} :
    {S A : Type ℓ} (Q : S → Type κ) (r : Result A × S) → Post (λ _. Q) Q r → Q r.1
Post_state Q (ok a, s) h = h
Post_state Q (raised e, s) h = h

module _ {ℓ κ} {S A B : Type ℓ} {P : S → Type κ} (m : Exec S A) (f : A → Exec S B) where
  pub Keeps-bind : Keeps P m → ((a : A) → Keeps P (f a)) → Keeps P (m >>= f)
  unfolding ◌>>=◌
  Keeps-bind h k = record { at = λ s p. reached (m s) (h.at s p) }
    where
      reached : (r : Result A × S) → P r.1 → P (proceed f r.0 r.1).1
      reached (ok a, s) p = (k a).at s p
      reached (raised e, s) p = p

module _ {ℓ κ} {S A : Type ℓ} {P : S → Type κ} where
  pub Keeps-finally :
      (n : Exec S (Unit {ℓ})) (m : Exec S A) → Keeps P n → Keeps P m → Keeps P (finally n m)
  unfolding finally
  Keeps-finally n m hn hm = record { at = λ s p. hn.at (m s).1 (hm.at s p) }

  pub Keeps-within :
      (enter leave : Exec S (Unit {ℓ})) (m : Exec S A)
      → Keeps P enter
      → Keeps P leave
      → Keeps P m
      → Keeps P (within enter leave m)
  Keeps-within enter leave m he hl hm =
      Keeps-bind enter (λ _. finally leave m) he (λ _. Keeps-finally leave m hl hm)

module _ {ℓ κ} {S A : Type ℓ} (Q : A → S → Type κ) (E : S → Type κ) where
  pub Ensures-pure : (a : A) → Ensures (Q a) (pure a) Q E
  Ensures-pure a = record { at = λ s p. p }

  pub Ensures-raise : (e : Error) → Ensures E (raise e) Q E
  Ensures-raise e = record { at = λ s p. p }

module _ {ℓ κ} {S A : Type ℓ} {P : S → Type κ} {Q : A → S → Type κ} {E : S → Type κ} where
  pub Ensures-attempt :
      (F : S → Type κ) (m : Exec S A) → Ensures P m Q E → Ensures P (attempt m) (Either Q E) F
  Ensures-attempt F m h = record { at = λ s p. reached (m s) (h.at s p) }
    where
      reached : (r : Result A × S) → Post Q E r → Either Q E r.0 r.1
      reached (ok a, s) p = p
      reached (raised e, s) p = p

  -- A weaker claim for what is raised.
  pub Ensures-raises :
      {m : Exec S A} (F : S → Type κ) → ((s : S) → E s → F s) → Ensures P m Q E → Ensures P m Q F
  Ensures-raises {m} F out h = record { at = λ s p. reached (m s) (h.at s p) }
    where
      reached : (r : Result A × S) → Post Q E r → Post Q F r
      reached (ok a, s) p = p
      reached (raised e, s) p = out s p

  pub Ensures-if :
      (b : Bool) (m n : Exec S A)
      → (b ≡ true → Ensures P m Q E)
      → (b ≡ false → Ensures P n Q E)
      → Ensures P (if b then m else n) Q E
  Ensures-if true m n hm hn = hm refl
  Ensures-if false m n hm hn = hn refl

module _ {ℓ κ} {S A B : Type ℓ} {P : S → Type κ} {Q : A → S → Type κ} {R : B → S → Type κ}
    {E : S → Type κ} where
  pub Ensures-bind :
      (m : Exec S A) (f : A → Exec S B)
      → Ensures P m Q E
      → ((a : A) → Ensures (Q a) (f a) R E)
      → Ensures P (m >>= f) R E
  unfolding ◌>>=◌
  Ensures-bind m f h k = record { at = λ s p. reached (m s) (h.at s p) }
    where
      reached : (r : Result A × S) → Post Q E r → Post R E (proceed f r.0 r.1)
      reached (ok a, s) p = (k a).at s p
      reached (raised e, s) p = p

module _ {ℓ κ} {S A : Type ℓ} {P : S → Type κ} {Q : A → S → Type κ} {E : S → Type κ} where
  -- What is done at the end keeps both what the body makes sure of and what it raises with.
  pub Ensures-finally :
      (n : Exec S (Unit {ℓ})) (m : Exec S A)
      → ((a : A) → Ensures (Q a) n (λ _. Q a) E)
      → Keeps E n
      → Ensures P m Q E
      → Ensures P (finally n m) Q E
  unfolding finally
  Ensures-finally n m hq he hm = record { at = λ s p. reached (m s) (hm.at s p) }
    where
      closed :
          (a : A) (r : Result (Unit {ℓ}) × S)
          → Post (λ _. Q a) E r
          → Post Q E (ends r.0 (ok a), r.1)
      closed a (ok _, s) p = p
      closed a (raised e, s) p = p

      failed : (e : Error) (r : Result (Unit {ℓ}) × S) → E r.1 → Post Q E (ends r.0 (raised e), r.1)
      failed e (ok _, s) p = p
      failed e (raised f, s) p = p

      reached : (r : Result A × S) → Post Q E r → Post Q E (let (b, u) = n r.1 in (ends b r.0, u))
      reached (ok a, s) p = closed a (n s) ((hq a).at s p)
      reached (raised e, s) p = failed e (n s) (he.at s p)

-- Where only the value counts, what is done at the end does not matter.
module _ {ℓ κ} {S A : Type ℓ} {P : S → Type κ} {C : A → Type κ} where
  pub Ensures-finally_value :
      (n : Exec S (Unit {ℓ})) (m : Exec S A)
      → Ensures P m (λ a s. C a) (λ s. Unit)
      → Ensures P (finally n m) (λ a s. C a) (λ s. Unit)
  Ensures-finally_value n m hm =
      Ensures-finally n m (λ a. Ensures-Keeps (λ s. Unit) n (record { at = λ s p. p }) (λ s p. tt))
        (record { at = λ s p. tt }) hm

module _ {ℓ κ} {S A : Type ℓ} {P R : S → Type κ} {C : A → Type κ} where
  pub Ensures-within_value :
      (enter leave : Exec S (Unit {ℓ})) (m : Exec S A)
      → ((s : S) → P s → R (enter s).1)
      → Ensures R m (λ a s. C a) (λ s. Unit)
      → Ensures P (within enter leave m) (λ a s. C a) (λ s. Unit)
  Ensures-within_value enter leave m entered hm =
      Ensures-bind enter (λ _. finally leave m)
        (record { at = λ s p. opened (enter s) (entered s p) })
        (λ _. Ensures-finally_value leave m hm)
    where
      opened : (r : Result (Unit {ℓ}) × S) → R r.1 → Post (λ _. R) (λ s. Unit {κ}) r
      opened (ok a, s) p = p
      opened (raised e, s) p = tt
