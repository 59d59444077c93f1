-- ===== src/Static/Tests.antt =====
-- Static memory of 40 bytes, from which blocks of 10, 20 and 12 bytes are asked for.
use neon_eds.Common.{ℕ, ◌+◌, ◌≤◌, ◌≡◌, List, [], ◌∷◌, true, done, arith, refl}
use neon_eds.Static.{Static}
use neon_eds.Static.Blocks.{IsAligned, Stacked, serve, serve-Stacked}

abbrev small_memory : Static
small_memory = record { base = 4096; free = 40; size = 40; signature = 0; ready = true }

small_memory-IsAligned : IsAligned small_memory
small_memory-IsAligned = record {
  some_base = omega arith;
  base_aligned = refl;
  free_aligned = refl;
  fits = omega arith;
}

serve-Stacked_example :
    (blocks : List (ℕ × ℕ)) × (s' : Static) × (serve true (10 ∷ 20 ∷ 12 ∷ []) small_memory
      ≡ done (blocks, s'))
    × Stacked 4096 (4096 + 40) blocks
    × IsAligned s'
    × (s'.base ≡ 4096)
    × (s'.free ≤ 40)
serve-Stacked_example =
    serve-Stacked true (10 ∷ 20 ∷ 12 ∷ []) small_memory small_memory-IsAligned
      (omega arith, omega arith, (omega arith, omega arith, (omega arith, omega arith, tt)))
