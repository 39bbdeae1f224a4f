-- ===== src/Supervisor.antt =====
-- crashsafe/supervisor.py: the slots of `Supervisor`, its start and its monitoring loop.
-- A process is its pid, the next of `next_pid` for a new one. A sweep of `monitor` meets `exited`,
-- which processes `poll` finds ended, and whether a stop was requested before it.
pub mod Slots
use crashsafe.Prelude.{
  ℕ, zero, suc, ◌+◌, Bool, true, false, ◌||◌, List, [], ◌∷◌, ◌++◌, if◌then◌else◌,
}

-- the keys of `processes`: "tool", "api" and "worker-<index>"
pub data Slot : Type 0 where
  tool api : Slot
  worker : (index : ℕ) → Slot

pub record Supervisor : Type 0 where
  pub processes : List (Slot × ℕ)
  pub stopping : Bool
  pub next_pid : ℕ

-- `range(first, first + count)`, each started
abbrev pub start_workers : ℕ → ℕ → ℕ → List (Slot × ℕ)
start_workers first zero pid = []
start_workers first (suc count) pid =
    (worker first, pid) ∷ start_workers (suc first) count (suc pid)

abbrev pub start_processes : ℕ → ℕ → Supervisor
start_processes worker_count pid = record {
  processes = (tool, pid) ∷ (api, pid + 1) ∷ start_workers 1 worker_count (pid + 2);
  stopping = false;
  next_pid = pid + 2 + worker_count;
}

-- One process of the sweep that has exited: its slot's process, `stopping` and the next pid.
abbrev pub replace : Slot → ℕ → Supervisor → Supervisor
replace (worker index) pid supervisor = record supervisor {
  processes = supervisor.processes ++ (worker index, supervisor.next_pid) ∷ [];
  next_pid = supervisor.next_pid + 1;
}
replace slot pid supervisor = record supervisor {
  processes = supervisor.processes ++ (slot, pid) ∷ [];
  stopping = true;
}

-- The `for` loop: `supervisor` holds the processes that were swept.
unfoldable pub sweep : (ℕ → Bool) → List (Slot × ℕ) → Supervisor → Supervisor
sweep exited [] supervisor = supervisor
sweep exited ((slot, pid) ∷ rest) supervisor = sweep exited rest (
    if exited pid
    then replace slot pid supervisor
    else record supervisor { processes = supervisor.processes ++ (slot, pid) ∷ [] })

-- The `while` loop of `monitor`, over what its sweeps meet.
unfoldable pub monitor : List (Bool × (ℕ → Bool)) → Supervisor → Supervisor
monitor [] supervisor = supervisor
monitor ((stop_requested, exited) ∷ sweeps) supervisor =
    let rest =
      monitor sweeps (sweep exited supervisor.processes (record supervisor { processes = [] })) in
    if supervisor.stopping || stop_requested then record supervisor { stopping = true } else rest
