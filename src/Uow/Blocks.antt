-- ===== src/Uow/Blocks.antt =====
-- What a block of the unit of work keeps, and a block that does not raise.
use file_extractor.Base.{◌≡◌, refl}
use file_extractor.Base.Exec.{Exec, Result, ok, raised}
use file_extractor.Base.Exec.Ensures.{Keeps}
use file_extractor.Uow.{left_uow, with_uow}

-- A block keeps what its body and the roll-back keep.
module _ {S : Type 0} {P : S → Type 0} (rollback : Exec S (Unit {0}))
    (back : Keeps P rollback) where
  left_uow-keeps : {A : Type 0} (a : Result A) (s : S) → P s → P (left_uow rollback a s).1
  unfolding left_uow
  left_uow-keeps (ok a) s p = p
  left_uow-keeps (raised e) s p = back.at s p

  pub with_uow-Keeps : {A : Type 0} (m : Exec S A) → Keeps P m → Keeps P (with_uow rollback m)
  unfolding with_uow
  with_uow-Keeps m h = record { at = λ s p. left_uow-keeps (m s).0 (m s).1 (h.at s p) }

module _ {S A : Type 0} (rollback : Exec S (Unit {0})) where
  left_uow-ok : (a : A) (r : Result A × S) → r.0 ≡ ok a → left_uow rollback r.0 r.1 ≡ r
  unfolding left_uow
  left_uow-ok a (ok _, s) e = refl
  left_uow-ok a (raised x, s) e = cc

  -- A block that does not raise is its body.
  pub with_uow-ok : (a : A) (m : Exec S A) (s : S) → (m s).0 ≡ ok a → with_uow rollback m s ≡ m s
  unfolding with_uow
  with_uow-ok a m s e = left_uow-ok a (m s) e
