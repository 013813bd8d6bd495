-- ===== src/Uow.antt =====
-- app/infrastructure/database/sqlalchemy_uow.py: entering and leaving a unit of work, over the
-- roll-back of its session.
pub mod Blocks
use file_extractor.Base.Exec.{Exec, Result, ok, raised}

module _ {S : Type 0} (rollback : Exec S (Unit {0})) where
  -- `__aexit__`
  unfoldable pub left_uow : {A : Type 0} → Result A → S → Result A × S
  left_uow (ok a) s = (ok a, s)
  left_uow (raised e) s =
      let (b, t) = rollback s in (elim b [ ok _ ↦ raised e | raised f ↦ raised f ], t)

  -- `async with self._uow:`, whose exit rolls back if the body raised; an exception of the roll-back
  -- takes the place of the body's.
  unfoldable pub with_uow : {A : Type 0} → Exec S A → Exec S A
  with_uow m s = let (a, t) = m s in left_uow a t
