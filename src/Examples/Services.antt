-- ===== src/Examples/Services.antt =====
-- The settings, the worker's loops, the supervisor and the handlers at small inputs.
use crashsafe.Prelude.{
  ℕ, ◌<◌, ◌==◌, ◌⊎◌, leb, any, All, String, true, false, Option, none, some, [], ◌∷◌, ◌≡◌, str_eq,
  if◌then◌else◌, ℤ, pos, Float, finite, infinite,
}
use crashsafe.Config.{ProcessSettings}
use crashsafe.Supervisor.{Slot, tool, api, worker, start_processes, monitor}
use crashsafe.Supervisor.Slots.{slots, AllRenewed, is_fatal, monitor-slots}

abbrev unset : String → Option String
unset name = none

abbrev read_int : String → Option ℤ
read_int text =
    if str_eq text "8001"
    then some (pos 8001)
    else if str_eq text "1"
    then some (pos 1)
    else some (pos 8)

-- multiples of the smallest float, and a lease without end
abbrev read_float : String → Option Float
read_float text = if str_eq text "2.0" then some infinite else some (finite (pos 8))

abbrev default_settings : ProcessSettings
default_settings = record {
  state_dir = "/srv/.crashsafe";
  engine_db = "/srv/.crashsafe/engine.db";
  ledger_db = "/srv/.crashsafe/ledger.db";
  tool_base_url = "http://127.0.0.1:8001";
  poll_interval = finite (pos 8);
  request_timeout = finite (pos 8);
  max_attempts = pos 8;
  base_backoff = finite (pos 8);
  max_backoff = finite (pos 8);
  worker_count = pos 1;
  lease_ttl = infinite;
  lease_renew_interval = finite (pos 8);
  tool_key = "mock-tool";
}

abbrev in_srv : String → String
in_srv path = "/srv/.crashsafe"

-- both workers exit in a first sweep, and the first of the new ones in a second
monitor-slots_example :
    let before = monitor ((false, λ pid. leb 102 pid) ∷ []) (start_processes 2 100) in
    let after = monitor ((false, λ pid. pid == 104) ∷ []) before in
    (slots before.processes ≡ tool ∷ api ∷ worker 1 ∷ worker 2 ∷ [])
    × All (λ (p : Slot × ℕ). p.1 < before.next_pid) before.processes
    × (before.stopping ≡ true
        ⊎ (AllRenewed (λ pid. pid == 104) before.next_pid before.processes after.processes
            × (after.stopping ≡ any (is_fatal (λ pid. pid == 104)) before.processes)))
monitor-slots_example = monitor-slots 2 100 ((false, λ pid. leb 102 pid) ∷ []) (λ pid. pid == 104)
