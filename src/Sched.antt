-- ===== src/Sched.antt =====
-- source/sched.c and include/sched/sched.h: the threads and their priority queue, in the default
-- configuration of include/base/config.h: 32 priority levels in 32 buckets, so that a bucket is a
-- priority, its bits shift by 0, the bitmap is one `uint32_t` and a thread is queued in FIFO order.
-- A thread and its `node` have one address. The sentinel of bucket `b` is at `b + 1`.
pub mod RunQueue
pub mod Schedule
pub mod RoundRobin
pub mod Threads
pub mod Boot
pub mod Tests
use neon_eds.Common.{
  ℕ, zero, suc, ◌+◌, ◌-◌, ◌%◌, ◌^◌, Bool, true, false, not, ◌&&◌, ◌==◌, if◌then◌else◌, update,
  Option, none, some, Run, done, asserted, ◌>>=◌, ◌>>◌, require, u32, List, [], ◌∷◌,
}
use Prim.Native.Nat.{bit_and, bit_or}
use neon_eds.Base.Dlist.{Links, ndlist_init, null}
use neon_eds.Base.BiasList.{
  BiasNodes, nbias_list_init, nbias_list_max_prio, nbias_list_term, nbias_list_fifo_insert,
  nbias_list_remove, nbias_list_is_empty, nbias_list_next, nbias_list_get_bias,
}
use neon_eds.Port.{ncore_log2, ncore_exp2, complement}

-- `vf_dispatch_i`: the functions of sched.c, and those of other files by number.
pub data Dispatch : Type 0 where
  idle_dispatch : Dispatch
  task_dispatch : Dispatch
  other_dispatch : ℕ → Dispatch

-- `struct sched_ctx`, and the fields of every `struct nthread`. `bit` is the word of the bitmap.
pub record Sched : Type 0 where
  pub nodes : BiasNodes
  pub bit : ℕ
  pub current : ℕ
  pub is_initialized : Bool
  pub ref : ℕ → ℕ
  pub vf_dispatch : ℕ → Dispatch
  pub signature : ℕ → ℕ
  pub name : ℕ → ℕ
  pub registry_node : Links

abbrev pub priority_buckets : ℕ
priority_buckets = 32

abbrev pub nsignature_thread : ℕ
nsignature_thread = 3735936736

abbrev pub sentinel : ℕ → ℕ
sentinel b = b + 1

-- The static `idle_thread`, and its name.
abbrev pub idle_thread : ℕ
idle_thread = 33

abbrev pub idle_name : ℕ
idle_name = 0

-- `struct prio_bitmap`
unfoldable pub bitmap_init : Sched → Sched
bitmap_init s = record s { bit = 0 }

unfoldable pub bitmap_set : Sched → ℕ → Sched
bitmap_set s priority = record s { bit = u32 (bit_or s.bit (ncore_exp2 priority)) }

unfoldable pub bitmap_clear : Sched → ℕ → Sched
bitmap_clear s priority = record s { bit = u32 (bit_and s.bit (complement (ncore_exp2 priority))) }

unfoldable pub bitmap_get_highest : Sched → Option ℕ
bitmap_get_highest s = ncore_log2 s.bit

-- `struct prio_queue`
unfoldable pub init_sentinels : ℕ → BiasNodes → BiasNodes
init_sentinels zero h = h
init_sentinels (suc count) h =
    init_sentinels count (nbias_list_init h (sentinel count) nbias_list_max_prio)

unfoldable pub prio_queue_init : Sched → Sched
prio_queue_init s =
    let s₁ = bitmap_init s in record s₁ { nodes = init_sentinels priority_buckets s₁.nodes }

unfoldable pub prio_queue_insert : Sched → ℕ → Sched
prio_queue_insert s node =
    let bucket = nbias_list_get_bias s.nodes node in
    let s₁ = if nbias_list_is_empty s.nodes (sentinel bucket) then bitmap_set s bucket else s in
    record s₁ { nodes = nbias_list_fifo_insert s₁.nodes (sentinel bucket) node }

unfoldable pub prio_queue_remove : Bool → Sched → ℕ → Sched
prio_queue_remove validation s node =
    let bucket = nbias_list_get_bias s.nodes node in
    let s₁ = record s { nodes = nbias_list_remove validation s.nodes node } in
    if nbias_list_is_empty s₁.nodes (sentinel bucket) then bitmap_clear s₁ bucket else s₁

unfoldable pub prio_queue_rotate : Bool → Sched → ℕ → Sched
prio_queue_rotate validation s node =
    let bucket = nbias_list_get_bias s.nodes node in
    record s {
      nodes =
          nbias_list_fifo_insert (nbias_list_remove validation s.nodes node) (sentinel bucket) node;
    }

unfoldable pub peek_bucket : Sched → Option ℕ → Option ℕ
peek_bucket s none = none
peek_bucket s (some bucket) = some (nbias_list_next s.nodes (sentinel bucket))

unfoldable pub prio_queue_peek : Sched → Option ℕ
prio_queue_peek s = peek_bucket s (bitmap_get_highest s)

-- The rest of `sched_schedule_i`, with the node that `prio_queue_peek` returns.
unfoldable pub schedule_node : Bool → Sched → Option ℕ → Option (ℕ × Sched)
schedule_node validation s none = none
schedule_node validation s (some new_node) =
    some (new_node, prio_queue_rotate validation (record s { current = new_node }) new_node)

unfoldable pub sched_schedule_i : Bool → Sched → Option (ℕ × Sched)
sched_schedule_i validation s = schedule_node validation s (prio_queue_peek s)

-- `NSIGNATURE_OF`
unfoldable pub signature_of : Sched → ℕ → ℕ
signature_of s thread = if thread == null then 0 else s.signature thread

-- `NREQUIRE` and `NOBLIGATION`. `validation` is on where CONFIG_API_VALIDATION and CONFIG_DEBUG are 1, and
-- off where both are 0.
unfoldable pub check : Bool → Bool → Run (Unit {0})
check validation test = if validation then require test else done tt

unfoldable pub sign : Bool → Sched → ℕ → ℕ → Sched
sign validation s thread value =
    if validation then record s { signature = update s.signature thread value } else s

unfoldable pub nthread_insert_i : Bool → Sched → ℕ → Run Sched
nthread_insert_i validation s thread =
    check validation (not (signature_of s thread == nsignature_thread))
    >> (let s₁ = if s.ref thread == 0 then prio_queue_insert s thread else s in
        done (record s₁ { ref = update s₁.ref thread ((s₁.ref thread + 1) % 2 ^ 64) }))

unfoldable pub nthread_remove_i : Bool → Sched → ℕ → Run Sched
nthread_remove_i validation s thread =
    check validation (not (signature_of s thread == nsignature_thread))
    >> (let s₁ = record s { ref = update s.ref thread ((s.ref thread + 2 ^ 64 - 1) % 2 ^ 64) } in
        done (if s₁.ref thread == 0 then prio_queue_remove validation s₁ thread else s₁))

-- The fields that `nthread_init` fills.
unfoldable pub init_fields : Bool → Sched → ℕ → ℕ → ℕ → Dispatch → Sched
init_fields validation s thread name priority vf_dispatch =
    sign validation
      (record s {
        nodes = nbias_list_init s.nodes thread priority;
        ref = update s.ref thread 0;
        vf_dispatch = update s.vf_dispatch thread vf_dispatch;
        name = update s.name thread name;
        registry_node = ndlist_init s.registry_node thread;
      })
      thread nsignature_thread

-- `nthread_init` of the idle thread within `nthread_init`: the queue is marked as initialized then.
unfoldable pub init_idle : Bool → Sched → Run Sched
init_idle validation s =
    check validation (not (signature_of s idle_thread == nsignature_thread))
    >> done (init_fields validation s idle_thread idle_name 0 idle_dispatch)

unfoldable pub prepare_run_queue : Bool → Sched → Run Sched
prepare_run_queue validation s =
    let s₁ = record s { is_initialized = true; current = null } in
    init_idle validation (prio_queue_init s₁) >>= λ s₂. nthread_insert_i validation s₂ idle_thread

unfoldable pub nthread_init : Bool → Sched → ℕ → ℕ → ℕ → Dispatch → Run Sched
nthread_init validation s thread name priority vf_dispatch =
    check validation (not (signature_of s thread == nsignature_thread))
    >> ((if s.is_initialized then done s else prepare_run_queue validation s) >>= λ s₁.
        done (init_fields validation s₁ thread name priority vf_dispatch))

unfoldable pub nthread_term : Bool → Sched → ℕ → Run Sched
nthread_term validation s thread =
    check validation (signature_of s thread == nsignature_thread)
    >> (let s₁ = if s.ref thread == 0 then s else prio_queue_remove validation s thread in
        let s₂ = record s₁ { nodes = nbias_list_term s₁.nodes thread } in
        done (sign validation s₂ thread (2 ^ 32 - 1 - nsignature_thread)))

unfoldable pub nthread_get_current : Sched → ℕ
nthread_get_current s = s.current

-- `count` rounds of the loop of `nthread_schedule`, with the threads that they pick. `run thread` is what
-- the function of the thread does to the state.
unfoldable pub after_round : ℕ → Option (List ℕ × Sched) → Option (List ℕ × Sched)
after_round thread none = none
after_round thread (some (threads, s)) = some (thread ∷ threads, s)

abbrev and_then {ℓ κ} : {A : Type ℓ} {B : Type κ} → Option A → (A → Option B) → Option B
and_then none f = none
and_then (some x) f = f x

unfoldable pub schedule_rounds : Bool → (ℕ → Sched → Sched) → ℕ → Sched → Option (List ℕ × Sched)
schedule_rounds validation run zero s = some ([], s)
schedule_rounds validation run (suc count) s =
    and_then (sched_schedule_i validation s)
      (λ p. after_round p.0 (schedule_rounds validation run count (run p.0 p.1)))
