-- ===== src/Base/Exec.antt =====
-- A method that changes an object and may raise: what was written before the exception stays
-- written, so the state comes back beside the error too.
pub mod Ensures
use file_extractor.Base.Errors.{Error}

pub data Result {ℓ} (A : Type ℓ) : Type ℓ where
  ok : A → Result A
  raised : Error → Result A

abbrev pub Exec {ℓ} : Type ℓ → Type ℓ → Type ℓ
Exec S A = S → Result A × S

module _ {ℓ} {S A : Type ℓ} where
  abbrev pub pure : A → Exec S A
  pure a s = (ok a, s)

  abbrev pub raise : Error → Exec S A
  raise e s = (raised e, s)

  abbrev pub lift : Result A → Exec S A
  lift r s = (r, s)

  abbrev pub gets : (S → A) → Exec S A
  gets f s = (ok (f s), s)

  -- `try: m` with the exception as a value, for the `except` clauses that follow
  abbrev pub attempt : Exec S A → Exec S (Result A)
  attempt m s = let (r, t) = m s in (ok r, t)

module _ {ℓ} {S : Type ℓ} where
  abbrev pub modify : (S → S) → Exec S (Unit {ℓ})
  modify f s = (ok tt, f s)

module _ {ℓ} {S A B : Type ℓ} where
  abbrev pub proceed : (A → Exec S B) → Result A → S → Result B × S
  proceed f (ok a) s = f a s
  proceed f (raised e) s = (raised e, s)

  infixl 5 ◌>>=◌ ◌>>◌
  unfoldable pub ◌>>=◌ : Exec S A → (A → Exec S B) → Exec S B
  ◌>>=◌ m f s = let (r, t) = m s in proceed f r t

  abbrev pub ◌>>◌ : Exec S A → Exec S B → Exec S B
  m >> n = m >>= λ _. n

-- How `finally: n` ends after its `try:` has ended with `a`: an exception of `n` comes in its place.
abbrev pub ends {ℓ} : {A : Type ℓ} → Result (Unit {ℓ}) → Result A → Result A
ends (ok _) a = a
ends (raised e) a = raised e

module _ {ℓ} {S A : Type ℓ} where
  -- `try: m` and `finally: n`
  unfoldable pub finally : Exec S (Unit {ℓ}) → Exec S A → Exec S A
  finally n m s = let (a, t) = m s in let (b, u) = n t in (ends b a, u)

  -- `async with` an object that `enter` opens and `leave` closes
  abbrev pub within : Exec S (Unit {ℓ}) → Exec S (Unit {ℓ}) → Exec S A → Exec S A
  within enter leave m = enter >> finally leave m
