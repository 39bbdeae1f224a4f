-- ===== src/Supervisor/Slots.antt =====
-- What the monitoring keeps: a slot for each process, and processes that are not known to have exited.
use mathlib.Core.List.{append-nil, append_assoc}
use crashsafe.Prelude.{
  ℕ, zero, suc, ◌+◌, Bool, ◌||◌, ◌≡◌, refl, sym, ap, ◌∙◌, List, [], ◌∷◌, ◌++◌, map, Bool-cases, inl,
  inr, if◌then◌else◌, ◌≤◌, ◌<◌, ◌⊎◌, true, false, any, All, arith, subst,
}
use crashsafe.Supervisor.{
  Slot, tool, api, worker, Supervisor, start_workers, start_processes, replace, sweep, monitor,
}

abbrev pub slots : List (Slot × ℕ) → List Slot
slots = map (λ (p : Slot × ℕ). p.0)

abbrev pub worker_slots : ℕ → ℕ → List Slot
worker_slots first zero = []
worker_slots first (suc count) = worker first ∷ worker_slots (suc first) count

slots-append : (ps qs : List (Slot × ℕ)) → slots (ps ++ qs) ≡ slots ps ++ slots qs
slots-append [] qs = refl
slots-append (p ∷ ps) qs = ap (λ rest. p.0 ∷ rest) (slots-append ps qs)

slots-start_workers :
    (first count pid : ℕ) → slots (start_workers first count pid) ≡ worker_slots first count
slots-start_workers first zero pid = refl
slots-start_workers first (suc count) pid =
    ap (λ rest. worker first ∷ rest) (slots-start_workers (suc first) count (suc pid))

slots-replace :
    (slot : Slot) (pid : ℕ) (s : Supervisor)
    → slots (replace slot pid s).processes ≡ slots s.processes ++ slot ∷ []
slots-replace tool pid s = slots-append s.processes _
slots-replace api pid s = slots-append s.processes _
slots-replace (worker index) pid s = slots-append s.processes _

-- One process of the sweep.
abbrev swept : (ℕ → Bool) → Slot → ℕ → Supervisor → Supervisor
swept exited slot pid s =
    if exited pid
    then replace slot pid s
    else record s { processes = s.processes ++ (slot, pid) ∷ [] }

slots-swept :
    (exited : ℕ → Bool) (slot : Slot) (pid : ℕ) (s : Supervisor)
    → slots (swept exited slot pid s).processes ≡ slots s.processes ++ slot ∷ []
slots-swept exited slot pid s = elim (Bool-cases (exited pid)) [
  | inl e ↦ rw e (slots-replace slot pid s)
  | inr e ↦ rw e (slots-append s.processes ((slot, pid) ∷ []))
]

slots-sweep :
    (exited : ℕ → Bool) (rest : List (Slot × ℕ)) (s : Supervisor)
    → slots (sweep exited rest s).processes ≡ slots s.processes ++ slots rest
unfolding sweep
slots-sweep exited [] s = sym (append-nil (slots s.processes))
slots-sweep exited ((slot, pid) ∷ rest) s =
    slots-sweep exited rest (swept exited slot pid s)
    ∙ ap (λ before. before ++ slots rest) (slots-swept exited slot pid s)
    ∙ append_assoc (slots s.processes) (slot ∷ []) (slots rest)

slots-monitor :
    (sweeps : List (Bool × (ℕ → Bool))) (s : Supervisor)
    → slots (monitor sweeps s).processes ≡ slots s.processes
unfolding monitor
slots-monitor [] s = refl
slots-monitor ((stop_requested, exited) ∷ sweeps) s =
    elim (Bool-cases (s.stopping || stop_requested)) [
      | inl e ↦ rw e refl
      | inr e ↦ rw e (
          slots-monitor sweeps (sweep exited s.processes (record s { processes = [] }))
          ∙ slots-sweep exited s.processes (record s { processes = [] }))
    ]

-- What a sweep makes of a process. The new pids are those from `fresh` on.
abbrev pub Renewed : (ℕ → Bool) → ℕ → Slot × ℕ → Slot × ℕ → Type 0
Renewed exited fresh (worker index, pid) (slot, pid') =
    (slot ≡ worker index)
    × (((exited pid ≡ false) × (pid' ≡ pid)) ⊎ ((exited pid ≡ true) × (fresh ≤ pid')))
Renewed exited fresh (old, pid) (slot, pid') = (slot ≡ old) × (pid' ≡ pid)

abbrev pub AllRenewed : (ℕ → Bool) → ℕ → List (Slot × ℕ) → List (Slot × ℕ) → Type 0
AllRenewed exited fresh [] [] = Unit
AllRenewed exited fresh (p ∷ ps) (q ∷ qs) = Renewed exited fresh p q × AllRenewed exited fresh ps qs
AllRenewed exited fresh _ _ = ⊥

-- a process that is no worker, which has exited
abbrev pub is_fatal : (ℕ → Bool) → Slot × ℕ → Bool
is_fatal exited (worker index, pid) = false
is_fatal exited (slot, pid) = exited pid

abbrev Below : ℕ → List (Slot × ℕ) → Type 0
Below n = All (λ (p : Slot × ℕ). p.1 < n)

-- What one process of a sweep becomes.
record IsSwept (exited : ℕ → Bool) (fresh : ℕ) (p : Slot × ℕ) (s after : Supervisor) : Type 0 where
  new : Slot × ℕ
  appended : after.processes ≡ s.processes ++ new ∷ []
  renewed : Renewed exited fresh p new
  stopped : after.stopping ≡ (s.stopping || is_fatal exited p)
  grows : s.next_pid ≤ after.next_pid
  below : p.1 < s.next_pid → new.1 < after.next_pid

swept-IsSwept :
    (exited : ℕ → Bool) (fresh : ℕ) (slot : Slot) (pid : ℕ) (s : Supervisor)
    → fresh ≤ s.next_pid
    → IsSwept exited fresh (slot, pid) s (swept exited slot pid s)
swept-IsSwept exited fresh (worker index) pid s at = elim (Bool-cases (exited pid)) [
  | inl e ↦ rw e (record {
    new = (worker index, s.next_pid);
    appended = refl;
    renewed = (refl, inr (e, at));
    stopped = ground arith;
    grows = omega arith;
    below = λ h. omega arith;
  })
  | inr e ↦ rw e (record {
    new = (worker index, pid);
    appended = refl;
    renewed = (refl, inl (e, refl));
    stopped = ground arith;
    grows = omega arith;
    below = λ h. h;
  })
]
swept-IsSwept exited fresh tool pid s at = elim (Bool-cases (exited pid)) [
  | inl e ↦ rw e (record {
    new = (tool, pid);
    appended = refl;
    renewed = (refl, refl);
    stopped = ground (arith, e);
    grows = omega arith;
    below = λ h. h;
  })
  | inr e ↦ rw e (record {
    new = (tool, pid);
    appended = refl;
    renewed = (refl, refl);
    stopped = ground (arith, e);
    grows = omega arith;
    below = λ h. h;
  })
]
swept-IsSwept exited fresh api pid s at = elim (Bool-cases (exited pid)) [
  | inl e ↦ rw e (record {
    new = (api, pid);
    appended = refl;
    renewed = (refl, refl);
    stopped = ground (arith, e);
    grows = omega arith;
    below = λ h. h;
  })
  | inr e ↦ rw e (record {
    new = (api, pid);
    appended = refl;
    renewed = (refl, refl);
    stopped = ground (arith, e);
    grows = omega arith;
    below = λ h. h;
  })
]

-- What a sweep makes of the processes that it still has to visit.
record AreSwept (exited : ℕ → Bool) (fresh : ℕ) (rest : List (Slot × ℕ)) (s after : Supervisor)
    : Type 0 where
  new : List (Slot × ℕ)
  appended : after.processes ≡ s.processes ++ new
  renewed : AllRenewed exited fresh rest new
  stopped : after.stopping ≡ (s.stopping || any (is_fatal exited) rest)
  grows : s.next_pid ≤ after.next_pid
  below : Below s.next_pid rest → Below after.next_pid new

Below-grows : (m n : ℕ) (ps : List (Slot × ℕ)) → m ≤ n → Below m ps → Below n ps
Below-grows m n [] h b = tt
Below-grows m n (p ∷ ps) h b = (omega (arith, h, b.0), Below-grows m n ps h b.1)

sweep-AreSwept :
    (exited : ℕ → Bool) (fresh : ℕ) (rest : List (Slot × ℕ)) (s : Supervisor)
    → fresh ≤ s.next_pid
    → AreSwept exited fresh rest s (sweep exited rest s)
unfolding sweep
sweep-AreSwept exited fresh [] s at = record {
  new = [];
  appended = sym (append-nil s.processes);
  renewed = tt;
  stopped = ground arith;
  grows = omega arith;
  below = λ b. tt;
}
sweep-AreSwept exited fresh ((slot, pid) ∷ rest) s at =
    let next = swept exited slot pid s in
    let one = swept-IsSwept exited fresh slot pid s at in
    let more = sweep-AreSwept exited fresh rest next (omega (arith, at, one.grows)) in
    record {
      new = one.new ∷ more.new;
      appended =
          more.appended
          ∙ ap (λ ps. ps ++ more.new) one.appended
          ∙ append_assoc s.processes (one.new ∷ []) more.new;
      renewed = (one.renewed, more.renewed);
      stopped = ground (arith, more.stopped, one.stopped);
      grows = omega (arith, one.grows, more.grows);
      below = λ b. (
        omega (arith, one.below b.0, more.grows),
        more.below (Below-grows s.next_pid next.next_pid rest one.grows b.1),
      );
    }

monitor-Below :
    (sweeps : List (Bool × (ℕ → Bool))) (s : Supervisor)
    → Below s.next_pid s.processes
    → Below (monitor sweeps s).next_pid (monitor sweeps s).processes
unfolding monitor
monitor-Below [] s b = b
monitor-Below ((stop_requested, exited) ∷ sweeps) s b =
    elim (Bool-cases (s.stopping || stop_requested)) [
      | inl e ↦ rw e b
      | inr e ↦
          let cleared = record s { processes = [] } in
          let done = sweep-AreSwept exited 0 s.processes cleared (omega arith) in
          let swept_all = sweep exited s.processes cleared in
          rw e (
            monitor-Below sweeps swept_all
              (subst (Below swept_all.next_pid) (sym done.appended) (done.below b)))
    ]

start_workers-Below : (first count pid : ℕ) → Below (pid + count) (start_workers first count pid)
start_workers-Below first zero pid = tt
start_workers-Below first (suc count) pid = (
  omega arith,
  Below-grows (suc pid + count) (pid + suc count) _ (omega arith)
      (start_workers-Below (suc first) count (suc pid)),
)

-- From the start on, whatever processes exit and whenever, the supervisor has the slots of the tool, the
-- API, and as many workers as it was told, and its next pid is above all of its processes'. While it is
-- not stopping, a sweep keeps each process that has not exited, gives the slot of each worker that has
-- exited a process with a new pid, and stops the supervisor exactly when the tool or the API exited.
pub monitor-slots :
    (worker_count pid : ℕ) (sweeps : List (Bool × (ℕ → Bool))) (exited : ℕ → Bool)
    → let before = monitor sweeps (start_processes worker_count pid) in
      let after = monitor ((false, exited) ∷ []) before in
      (slots before.processes ≡ tool ∷ api ∷ worker_slots 1 worker_count)
      × All (λ (p : Slot × ℕ). p.1 < before.next_pid) before.processes
      × (before.stopping ≡ true
          ⊎ (AllRenewed exited before.next_pid before.processes after.processes
              × (after.stopping ≡ any (is_fatal exited) before.processes)))
unfolding monitor
monitor-slots worker_count pid sweeps exited =
    let before = monitor sweeps (start_processes worker_count pid) in
    (
      slots-monitor sweeps (start_processes worker_count pid)
          ∙ ap (λ rest. tool ∷ api ∷ rest) (slots-start_workers 1 worker_count (pid + 2)),
      monitor-Below sweeps (start_processes worker_count pid)
          (omega arith, (omega arith, start_workers-Below 1 worker_count (pid + 2))),
      elim (Bool-cases before.stopping) [
        | inl e ↦ inl e
        | inr e ↦
            let done =
              sweep-AreSwept exited before.next_pid before.processes
                (record before { processes = []; stopping = false }) (omega arith) in
            inr (
              rw (e, monitor)
                (
                  subst (AllRenewed exited before.next_pid before.processes) (sym done.appended)
                      done.renewed,
                  done.stopped,
                ))
      ],
    )
