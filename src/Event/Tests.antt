-- ===== src/Event/Tests.antt =====
-- Two pools of 16 and of 64 bytes, in an array of four, and an event from a pool.
use neon_eds.Common.{
  ℕ, ◌<◌, ◌≤◌, ◌≡◌, ◌≢◌, ◌⊎◌, List, [], ◌∷◌, Bool, true, false, ◌==◌, if◌then◌else◌, Run, done,
  out_of_bounds, arith, refl,
}
use neon_eds.Base.Dlist.{null}
use neon_eds.Event.{
  Events, EventStorage, nevent_attr_dynamic, nsignature_event, find_memory_i, nevent_register_mem,
  nevent_unregister_mem, nevent_lock, nevent_unlock, nevent_destroy_i,
}
use neon_eds.Event.Storage.{IsOrdered, Inserted, nevent_register_mem-IsOrdered}
use neon_eds.Event.Find.{find_memory_i-smallest, Unregistered, nevent_unregister_mem-null}
use neon_eds.Event.Lifetime.{nevent_lock-unlock}

-- Pools are named by their sizes.
abbrev size_of : ℕ → ℕ
size_of mem = mem

abbrev is_pool : ℕ → Bool
is_pool mem = true

abbrev two_pools : EventStorage
two_pools = record { mem = λ i. if i == 0 then 16 else 64; pools = 2 }

abbrev three_pools : EventStorage
three_pools = record {
  mem = λ i. if i == 0 then 16 else if i == 1 then 64 else if i == 2 then 128 else 0;
  pools = 3;
}

two_pools-IsOrdered : IsOrdered size_of is_pool 4 two_pools
two_pools-IsOrdered i j h l = ground (arith, h, l)

some_pool : (j : ℕ) → j < 2 → two_pools.mem j ≢ null
some_pool j l = ground arith

small_pools : (j : ℕ) → j < 2 → two_pools.mem j < 100
small_pools j l = ground arith

nevent_register_mem-IsOrdered_example :
    (g' : EventStorage) × (k : ℕ) × (nevent_register_mem size_of is_pool 4 true two_pools 32
      ≡ done g')
    × Inserted size_of is_pool 4 two_pools 32 k g'
    × IsOrdered size_of is_pool 4 g'
nevent_register_mem-IsOrdered_example =
    nevent_register_mem-IsOrdered size_of is_pool 4 true two_pools 32 two_pools-IsOrdered refl
      (omega arith)

find_memory_i-smallest_example :
    (b : ℕ) × (b < 2)
    × (find_memory_i size_of is_pool 4 true 12 two_pools 40 ≡ done (two_pools.mem b))
    × (40 ≤ two_pools.mem b)
    × ((j : ℕ) → j < 2 → 40 ≤ two_pools.mem j → two_pools.mem b ≤ two_pools.mem j)
find_memory_i-smallest_example =
    find_memory_i-smallest size_of is_pool 4 true two_pools 12 40 1 (omega arith)
      two_pools-IsOrdered some_pool (omega arith) (omega arith)

three_pools-once : (j : ℕ) → j ≤ 3 → three_pools.mem j ≡ 64 → j ≡ 1
three_pools-once j l e = ground (arith, l, e)

nevent_unregister_mem-null_example :
    ((g' : EventStorage) × (1 < 3)
      × (3 < 4)
      × (nevent_unregister_mem size_of is_pool 4 true three_pools 64 ≡ done g')
      × Unregistered size_of is_pool 4 three_pools 1 g')
    ⊎ (((three_pools.pools ≡ 1) ⊎ (4 ≤ 3))
        × (nevent_unregister_mem size_of is_pool 4 true three_pools 64 ≡ out_of_bounds))
nevent_unregister_mem-null_example =
    nevent_unregister_mem-null size_of is_pool 4 true three_pools 64 1 refl (omega arith) refl
      three_pools-once

abbrev no_events : Events
no_events = record {
  mem = λ e. 0;
  attrib = λ e. nevent_attr_dynamic;
  ref = λ e. 0;
  signature = λ e. nsignature_event;
  id = λ e. 15;
  producer = λ e. 0;
  size = λ e. 24;
}

-- A pool as the list of its free blocks.
abbrev take_block : ℕ → ℕ → List ℕ → ℕ × List ℕ
take_block mem size [] = (null, [])
take_block mem size (block ∷ blocks) = (block, blocks)

abbrev give_block : ℕ → ℕ → List ℕ → List ℕ
give_block mem event blocks = event ∷ blocks

abbrev find_64 : ℕ → Run ℕ
find_64 size = done 64

nevent_lock-unlock_example :
    (h₁ : Events) × (h₂ : Events) × (nevent_lock false no_events 70 ≡ done h₁)
    × (nevent_destroy_i give_block false h₁ [] 70 ≡ done (h₁, []))
    × (nevent_unlock give_block false h₁ [] 70 ≡ done (h₂, 70 ∷ []))
    × (h₂.attrib 70 ≡ nevent_attr_dynamic)
    × (h₂.ref ≡ no_events.ref)
nevent_lock-unlock_example = nevent_lock-unlock give_block no_events [] 70 refl
