-- ===== src/Domain/Task/Lifecycle.antt =====
-- The methods of `DownloadTask` as a state machine: which moves they make, what they leave alone
-- when they raise, and which fields a status vouches for.
use file_extractor.Base.{
  ℕ, String, ◌≡◌, refl, ◌∙◌, Bool, inl, inr, List, [], ◌∷◌, Bool-cases, true, false, ◌||◌,
}
use file_extractor.Base.Int.{ℤ}
use file_extractor.Base.Exec.{Exec, Result, ok, raised}
use file_extractor.Domain.Status.{TaskStatus, is_pending, is_running}
use file_extractor.Domain.Time.{DateTime, add_seconds}
use file_extractor.Domain.Task.{
  DownloadTask, claim, heartbeat, increase_received, decrease_received, increase_processed,
  complete, fail, block, block_until,
}

-- A call of a method, with the clock readings that it makes.
pub data Call : Type 0 where
  claim_by : String → DateTime → DateTime → Call
  beat : DateTime → Call
  receive : ℕ → Call
  give_back : ℕ → Call
  work_off : ℕ → Call
  end_at : DateTime → Call
  give_up : String → DateTime → Call
  block_for : ℤ → String → DateTime → Call

unfoldable pub invoke : Call → Exec DownloadTask (Unit {0})
unfolding claim heartbeat increase_received decrease_received increase_processed complete fail block
invoke (claim_by worker s b) = claim worker s b
invoke (beat now) = heartbeat now
invoke (receive n) = increase_received n
invoke (give_back n) = decrease_received n
invoke (work_off n) = increase_processed n
invoke (end_at now) = complete now
invoke (give_up e now) = fail e now
invoke (block_for n reason now) = block n reason now

-- The moves of the life cycle.
pub data Moves : TaskStatus → TaskStatus → Type 0 where
  stays : {s : TaskStatus} → Moves s s
  starts : Moves TaskStatus.pending TaskStatus.running
  succeeds : Moves TaskStatus.running TaskStatus.success
  gives_up_early : Moves TaskStatus.pending TaskStatus.failed
  gives_up : Moves TaskStatus.running TaskStatus.failed
  is_put_off : Moves TaskStatus.running TaskStatus.blocked

-- Calls in a row, whose exceptions the caller swallows.
unfoldable pub invoke_all : List Call → DownloadTask → DownloadTask
invoke_all [] t = t
invoke_all (c ∷ cs) t = invoke_all cs (invoke c t).1

from_pending : (s : TaskStatus) → is_pending s ≡ true → Moves s TaskStatus.running
from_pending TaskStatus.pending h = starts
from_pending _ h = cc

to_success : (s : TaskStatus) → is_running s ≡ true → Moves s TaskStatus.success
to_success TaskStatus.running h = succeeds
to_success _ h = cc

to_failed : (s : TaskStatus) → (is_pending s || is_running s) ≡ true → Moves s TaskStatus.failed
to_failed TaskStatus.pending h = gives_up_early
to_failed TaskStatus.running h = gives_up
to_failed _ h = cc

to_blocked : (s : TaskStatus) → is_running s ≡ true → Moves s TaskStatus.blocked
to_blocked TaskStatus.running h = is_put_off
to_blocked _ h = cc

block_until-Moves :
    (reason : String) (r : Result DateTime) (t : DownloadTask)
    → is_running t.status ≡ true
    → Moves t.status (block_until reason r t).1.status
unfolding block_until
block_until-Moves reason (ok u) t h = to_blocked t.status h
block_until-Moves reason (raised e) t h = to_blocked t.status h

-- Whatever method is called, and whether it raises or not, the status stays as it is or makes one
-- of the five moves: PENDING to RUNNING or FAILED, RUNNING to SUCCESS, FAILED or BLOCKED.
pub invoke-Moves : (c : Call) (t : DownloadTask) → Moves t.status (invoke c t).1.status
unfolding invoke
invoke-Moves (claim_by worker s b) t = elim (Bool-cases (is_pending t.status)) [
  | inl e ↦ rw e (from_pending t.status e)
  | inr e ↦ rw e stays
]
invoke-Moves (beat now) t = elim (Bool-cases (is_running t.status)) [
  | inl e ↦ rw e stays
  | inr e ↦ rw e stays
]
invoke-Moves (receive n) t = elim (Bool-cases (is_running t.status)) [
  | inl e ↦ rw e stays
  | inr e ↦ rw e stays
]
invoke-Moves (give_back n) t = stays
invoke-Moves (work_off n) t = elim (Bool-cases (is_running t.status)) [
  | inl e ↦ rw e stays
  | inr e ↦ rw e stays
]
invoke-Moves (end_at now) t = elim (Bool-cases (is_running t.status)) [
  | inl e ↦ rw e (to_success t.status e)
  | inr e ↦ rw e stays
]
invoke-Moves (give_up m now) t = elim (Bool-cases (is_pending t.status || is_running t.status)) [
  | inl e ↦ rw e (to_failed t.status e)
  | inr e ↦ rw e stays
]
invoke-Moves (block_for n reason now) t = elim (Bool-cases (is_running t.status)) [
  | inl e ↦ rw e (block_until-Moves reason (add_seconds now n) t e)
  | inr e ↦ rw e stays
]

abbrev pub is_final : TaskStatus → Bool
is_final TaskStatus.pending = false
is_final TaskStatus.running = false
is_final _ = true

Moves-final : {s u : TaskStatus} → Moves s u → is_final s ≡ true → u ≡ s
Moves-final stays h = refl
Moves-final starts h = cc
Moves-final succeeds h = cc
Moves-final gives_up_early h = cc
Moves-final gives_up h = cc
Moves-final is_put_off h = cc

-- A task that is SUCCESS, FAILED or BLOCKED keeps that status, whatever methods are called on it
-- afterwards, in any order and number.
pub invoke_all_final :
    (cs : List Call) (t : DownloadTask)
    → is_final t.status ≡ true
    → (invoke_all cs t).status ≡ t.status
unfolding invoke_all
invoke_all_final [] t h = refl
invoke_all_final (c ∷ cs) t h =
    let e : (invoke c t).1.status ≡ t.status = Moves-final (invoke-Moves c t) h in
    invoke_all_final cs (invoke c t).1 (rw e h) ∙ e
