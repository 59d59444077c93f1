-- ===== src/Event.antt =====
-- source/event.c and include/ep/event.h: events, their reference counts, and the pools that they are
-- allocated from. The reference counters are those of port/pic32-none-gcc.
pub mod Storage
pub mod Find
pub mod Lifetime
mod Tests
use neon_eds.Common.{
  ℕ, zero, suc, ◌+◌, ◌-◌, ◌%◌, ◌^◌, ◌*◌, Bool, true, false, not, ◌&&◌, ◌||◌, ltb, leb, ◌==◌,
  if◌then◌else◌, update, Run, done, sign_extend, out_of_bounds, ◌>>=◌, ◌>>◌,
}
use Prim.Native.Nat.{bit_or, bit_xor}
use neon_eds.Base.Dlist.{null}
use neon_eds.Sched.{check}

-- `struct nevent` of every event. `ref` is the 32-bit pattern of an `int32_t`.
pub record Events : Type 0 where
  pub mem : ℕ → ℕ
  pub attrib : ℕ → ℕ
  pub ref : ℕ → ℕ
  pub signature : ℕ → ℕ
  pub id : ℕ → ℕ
  pub producer : ℕ → ℕ
  pub size : ℕ → ℕ

abbrev pub nevent_attr_dynamic : ℕ
nevent_attr_dynamic = 255

abbrev pub nevent_ref_limit : ℕ
nevent_ref_limit = 65535

abbrev pub nsignature_event : ℕ
nsignature_event = 3735944941

abbrev pub nevent_attr_reserved : ℕ
nevent_attr_reserved = 4095

-- The counters of port/pic32-none-gcc, which stop at INT32_MAX and at 0.
unfoldable pub ncore_atomic_inc : ℕ → ℕ
ncore_atomic_inc value = if value == 2 ^ 31 - 1 then value else (value + 1) % 2 ^ 32

unfoldable pub ncore_atomic_dec : ℕ → ℕ
ncore_atomic_dec value = if value == 0 then value else (value + 2 ^ 32 - 1) % 2 ^ 32

unfoldable pub nevent_ref_up : Events → ℕ → Events
nevent_ref_up h event =
    if h.attrib event == 0
    then h
    else record h { ref = update h.ref event (ncore_atomic_inc (h.ref event)) }

unfoldable pub nevent_ref_down : Events → ℕ → Events
nevent_ref_down h event =
    if h.attrib event == 0
    then h
    else record h { ref = update h.ref event (ncore_atomic_dec (h.ref event)) }

unfoldable pub nevent_ref : Events → ℕ → ℕ
nevent_ref h event =
    bit_or (sign_extend (h.ref event)) (bit_xor (h.attrib event) nevent_attr_dynamic)

-- `nevent_ref(event) < NEVENT_REF_LIMIT`, a comparison of signed numbers.
unfoldable pub below_limit : ℕ → Bool
below_limit r = ltb r nevent_ref_limit || leb (2 ^ 63) r

-- `NSIGNATURE_OF` of an event.
unfoldable pub event_signature : Events → ℕ → ℕ
event_signature h event = if event == null then 0 else h.signature event

unfoldable pub event_term : Bool → Events → ℕ → Events
event_term validation h event =
    if validation
    then record h { signature = update h.signature event (2 ^ 32 - 1 - nsignature_event) }
    else h

-- `struct event_storage`
pub record EventStorage : Type 0 where
  pub mem : ℕ → ℕ
  pub pools : ℕ

-- `mem_size` tells the size of a memory object, and `is_mem_object` its signature; `npools` is
-- CONFIG_EVENT_STORAGE_NPOOLS, the size of the array `mem`.
module _ (mem_size : ℕ → ℕ) (is_mem_object : ℕ → Bool) (npools : ℕ) (validation : Bool) where
  -- The loop of `find_memory_i`, with `left` rounds to go.
  unfoldable pub find_loop : (ℕ → ℕ) → ℕ → ℕ → ℕ → ℕ → ℕ
  find_loop pools size cnt zero mem = mem
  find_loop pools size cnt (suc left) mem =
      let rest = find_loop pools size (cnt + 1) left (pools cnt) in
      if leb size (mem_size (pools cnt)) then pools cnt else rest

  -- `header` is sizeof(struct nevent).
  unfoldable pub find_memory_i : ℕ → EventStorage → ℕ → Run ℕ
  find_memory_i header g size =
      let mem = find_loop g.mem size 0 g.pools null in
      check validation (leb header size) >> (check validation (not (mem == null)) >> done mem)

  -- The loop of `nevent_register_mem`: the place that it ends at, and the array.
  unfoldable pub register_loop : ℕ → ℕ → (ℕ → ℕ) → ℕ × (ℕ → ℕ)
  register_loop size zero pools = (0, pools)
  register_loop size (suc cnt) pools =
      let pools₁ = update pools (suc cnt) (pools cnt) in
      let rest = register_loop size cnt pools₁ in
      if leb (mem_size (pools₁ (suc cnt))) size then (suc cnt, pools₁) else rest

  unfoldable pub nevent_register_mem : EventStorage → ℕ → Run EventStorage
  nevent_register_mem g mem =
      let placed = register_loop (mem_size mem) g.pools g.mem in
      check validation (is_mem_object mem)
      >> (check validation (ltb g.pools npools)
          >> (if ltb g.pools npools
              then done (record { mem = update placed.1 placed.0 mem; pools = g.pools + 1 })
              else out_of_bounds))

  -- The first loop of `nevent_unregister_mem`.
  unfoldable pub search_loop : ℕ → (ℕ → ℕ) → ℕ → ℕ
  search_loop mem pools zero = 0
  search_loop mem pools (suc cnt) =
      let rest = search_loop mem pools cnt in if mem == pools (suc cnt) then suc cnt else rest

  -- The second one, with `left` rounds to go.
  unfoldable pub shift_loop : ℕ → ℕ → (ℕ → ℕ) → (ℕ → ℕ)
  shift_loop cnt zero pools = pools
  shift_loop cnt (suc left) pools = shift_loop (cnt + 1) left (update pools cnt (pools (cnt + 1)))

  -- Its reads start at `mem[pools]`, and its last write is to `mem[pools - 1]` of the new `pools`.
  unfoldable pub nevent_unregister_mem : EventStorage → ℕ → Run EventStorage
  nevent_unregister_mem g mem =
      let cnt = search_loop mem g.mem g.pools in
      let pools = g.pools - 1 in
      let shifted = shift_loop cnt (pools - cnt) g.mem in
      check validation (is_mem_object mem)
      >> (check validation (not (g.pools == 0))
          >> (check validation (mem == g.mem cnt)
              >> (if ltb g.pools npools && not (pools == 0)
                  then done (record { mem = update shifted (pools - 1) null; pools = pools })
                  else out_of_bounds)))

-- `current` is the agent of the current thread.
unfoldable pub event_init : Bool → Events → ℕ → ℕ → ℕ → ℕ → ℕ → Events
event_init validation h event id mem size current =
    let h₁ = record h {
      id = update h.id event id;
      ref = update h.ref event 0;
      attrib = update h.attrib event nevent_attr_dynamic;
      mem = update h.mem event mem;
      producer = update h.producer event current;
      size = update h.size event size;
    } in
    if validation then record h₁ { signature = update h₁.signature event nsignature_event } else h₁

-- `memcpy(ret, event, event->size)`: the fields of the header.
unfoldable pub copy_event : Events → ℕ → ℕ → Events
copy_event h ret event = record {
  mem = update h.mem ret (h.mem event);
  attrib = update h.attrib ret (h.attrib event);
  ref = update h.ref ret (h.ref event);
  signature = update h.signature ret (h.signature event);
  id = update h.id ret (h.id event);
  producer = update h.producer ret (h.producer event);
  size = update h.size ret (h.size event);
}

unfoldable pub nevent_lock : Bool → Events → ℕ → Run Events
nevent_lock validation h event =
    check validation (event_signature h event == nsignature_event)
    >> done (
        if h.attrib event == 0
        then h
        else record h { attrib = update h.attrib event nevent_attr_reserved })

-- `free mem event` is what it does to take the block of an event back.
module _ {ℓ} {W : Type ℓ} (free : ℕ → ℕ → W → W) (validation : Bool) where
  unfoldable pub nevent_destroy_i : Events → W → ℕ → Run (Events × W)
  nevent_destroy_i h w event =
      check validation (event_signature h event == nsignature_event)
      >> done (
          if nevent_ref h event == 0
          then (event_term validation h event, free (h.mem event) event w)
          else (h, w))

  unfoldable pub nevent_unlock : Events → W → ℕ → Run (Events × W)
  nevent_unlock h w event =
      let h₁ = record h { attrib = update h.attrib event nevent_attr_dynamic } in
      check validation (event_signature h event == nsignature_event)
      >> done (
          if h.attrib event == 0
          then (h, w)
          else if h₁.ref event == 0
          then (event_term validation h₁ event, free (h₁.mem event) event w)
          else (h₁, w))

-- `alloc mem size` is what a memory manager does for an allocation: the block, or the null pointer.
module _ {ℓ} {W : Type ℓ} (alloc : ℕ → ℕ → W → ℕ × W) (validation : Bool) where
  -- The part of the creating functions after the choice of `mem`.
  unfoldable pub create_from : Events → ℕ → W → ℕ → ℕ → ℕ → ℕ × Events × W
  create_from h current w mem size id =
      let (event, w₁) = alloc mem size w in
      (event, (if event == null then h else event_init validation h event id mem size current), w₁)

  unfoldable pub nevent_create_from_i : ℕ → Events → ℕ → W → ℕ → ℕ → ℕ → Run (ℕ × Events × W)
  nevent_create_from_i header h current w mem size id =
      check validation (leb header size) >> done (create_from h current w mem size id)

  -- `find` is `find_memory_i`.
  unfoldable pub nevent_create : (ℕ → Run ℕ) → Events → ℕ → W → ℕ → ℕ → Run (ℕ × Events × W)
  nevent_create find h current w size id =
      find size >>= λ mem. done (create_from h current w mem size id)

  unfoldable pub nevent_create_i : (ℕ → Run ℕ) → Events → ℕ → W → ℕ → ℕ → Run (ℕ × Events × W)
  nevent_create_i find h current w size id = find size >>= λ mem.
      let (event, h₁, w₁) = create_from h current w mem size id in
      check validation (not (event == null)) >> done (event, h₁, w₁)

  -- Where CONFIG_EVENT_SIZE is 1.
  unfoldable pub nevent_forward : (ℕ → Run ℕ) → Events → ℕ → W → ℕ → ℕ → Run (ℕ × Events × W)
  nevent_forward find h current w event id =
      check validation (event_signature h event == nsignature_event)
      >> ((if h.mem event == null then find (h.size event) else done (h.mem event)) >>= λ mem.
          let (ret, w₁) = alloc mem (h.size event) w in
          let h₁ =
            if ret == null
            then h
            else event_init validation (copy_event h ret event) ret id (h.mem event) (h.size event)
                current in
          check validation (not (ret == null)) >> done (ret, h₁, w₁))
