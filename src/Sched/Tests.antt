-- ===== src/Sched/Tests.antt =====
-- Runs of the scheduler on concrete threads.
use neon_eds.Common.{
  ℕ, ◌+◌, ◌≡◌, List, [], ◌∷◌, ◌++◌, ◌==◌, if◌then◌else◌, update, arith, true, false, refl, done,
  asserted, some, length, subst, ap, ◌-◌,
}
use neon_eds.Sched.{
  Sched, Dispatch, nthread_init, nthread_insert_i, nthread_remove_i, sched_schedule_i,
  schedule_rounds,
}
use neon_eds.Sched.RunQueue.{RunQueue}
use neon_eds.Sched.RunQueue.Insert.{appended}
use neon_eds.Sched.Schedule.{Highest, sched_schedule_i-Highest}
use neon_eds.Sched.RoundRobin.{schedule_rounds-round_robin}
use neon_eds.Sched.Threads.{Managed, nthread_insert_i-Managed, nthread_remove_i-Managed}
use neon_eds.Sched.Boot.{idle_only, nthread_init-first, nthread_init-asserted}

-- The memory before the first call.
abbrev pub reset : Sched
reset = record {
  nodes = record { list = record { next = λ a. 0; prev = λ a. 0 }; bias = λ a. 0 };
  bit = 0;
  current = 0;
  is_initialized = false;
  ref = λ a. 0;
  vf_dispatch = λ a. Dispatch.idle_dispatch;
  signature = λ a. 0;
  name = λ a. 0;
  registry_node = record { next = λ a. 0; prev = λ a. 0 };
}

nthread_init-asserted_example : nthread_init true reset 40 1 5 Dispatch.task_dispatch ≡ asserted
nthread_init-asserted_example = nthread_init-asserted reset 40 1 5 Dispatch.task_dispatch refl

-- The state after the first `nthread_init` of thread 40 with priority 5, and after its insertion.
abbrev pub Booted : Type 0
Booted =
    (s' : Sched) × (nthread_init false reset 40 1 5 Dispatch.task_dispatch ≡ done s')
    × Managed s' idle_only
    × (s'.is_initialized ≡ true)
    × (s'.ref 40 ≡ 0)
    × (s'.nodes.bias 40 ≡ 5)
    × (s'.vf_dispatch 40 ≡ Dispatch.task_dispatch)

pub boot : Booted
boot = nthread_init-first reset 40 1 5 Dispatch.task_dispatch refl (λ x. refl) (omega arith)

abbrev pub booted : Sched
booted = boot.0

pub booted-Managed : Managed booted idle_only
booted-Managed = let (_, _, m, _, _, _, _) = boot in m

pub booted-ref : booted.ref 40 ≡ 0
booted-ref = let (_, _, _, _, r, _, _) = boot in r

pub booted-bias : booted.nodes.bias 40 ≡ 5
booted-bias = let (_, _, _, _, _, b, _) = boot in b

abbrev task_ready : ℕ → List ℕ
task_ready = appended idle_only 5 40

abbrev Ready : Type 0
Ready =
    (s' : Sched) × (nthread_insert_i false booted 40 ≡ done s')
    × Managed s' task_ready
    × (s'.ref 40 ≡ 1)
    × (s'.nodes.bias 40 ≡ 5)

ready : Ready
ready =
    let (s', run, m, refs, biases, _) =
      nthread_insert_i-Managed booted idle_only 40 booted-Managed (omega arith)
        (omega (arith, booted-bias)) (omega (arith, booted-ref)) in
    (
      s',
      run,
      subst (λ (r, b). Managed s' (if r == 0 then appended idle_only b 40 else idle_only))
          (λ i. (booted-ref i, booted-bias i)) m,
      rw refs (ground (arith, booted-ref)),
      rw biases booted-bias,
    )

abbrev ready_state : Sched
ready_state = ready.0

ready-Managed : Managed ready_state task_ready
ready-Managed = let (_, _, m, _, _) = ready in m

ready-ref : ready_state.ref 40 ≡ 1
ready-ref = let (_, _, _, r, _) = ready in r

ready-bias : ready_state.nodes.bias 40 ≡ 5
ready-bias = let (_, _, _, _, b) = ready in b

task-Highest : Highest task_ready 5
task-Highest = record { below = omega arith; inhabited = refl; top = λ c lo hi. ground arith }

nthread_insert_i-Managed_example :
    (s' : Sched) × (nthread_insert_i false booted 40 ≡ done s')
    × Managed s'
        (if booted.ref 40 == 0 then appended idle_only (booted.nodes.bias 40) 40 else idle_only)
    × (s'.ref ≡ update booted.ref 40 (booted.ref 40 + 1))
    × (s'.nodes.bias ≡ booted.nodes.bias)
    × (s'.is_initialized ≡ booted.is_initialized)
nthread_insert_i-Managed_example =
    nthread_insert_i-Managed booted idle_only 40 booted-Managed (omega arith)
      (omega (arith, booted-bias)) (omega (arith, booted-ref))

nthread_remove_i-Managed_example :
    (s' : Sched) × (nthread_remove_i false ready_state 40 ≡ done s')
    × Managed s' (
        if ready_state.ref 40 == 1
        then update task_ready (ready_state.nodes.bias 40) ([] ++ [])
        else task_ready)
    × (s'.ref ≡ update ready_state.ref 40 (ready_state.ref 40 - 1))
    × (s'.nodes.bias ≡ ready_state.nodes.bias)
nthread_remove_i-Managed_example =
    nthread_remove_i-Managed ready_state task_ready 40 [] [] ready-Managed
      (omega (arith, ready-ref)) (omega (arith, ready-ref)) (ap task_ready ready-bias)

sched_schedule_i-Highest_example :
    (s' : Sched) × (sched_schedule_i false ready_state ≡ some (40, s'))
    × RunQueue s' (update task_ready 5 ([] ++ 40 ∷ []))
    × (s'.current ≡ 40)
sched_schedule_i-Highest_example =
    sched_schedule_i-Highest false ready_state task_ready 5 40 [] ready-Managed.queue task-Highest
      refl

schedule_rounds-round_robin_example :
    (s' : Sched) × (schedule_rounds false (λ n s. s) (length (task_ready 5)) ready_state
      ≡ some (task_ready 5, s'))
    × RunQueue s' task_ready
schedule_rounds-round_robin_example =
    schedule_rounds-round_robin false (λ n s. s) ready_state task_ready 5 (λ n s r q. q)
      ready-Managed.queue task-Highest
