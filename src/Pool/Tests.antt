-- ===== src/Pool/Tests.antt =====
-- A region of 48 bytes for three blocks of 16.
use neon_eds.Common.{◌-◌, ◌^◌, ◌≡◌, [], ◌∷◌, true, false, refl, arith, done}
use neon_eds.Pool.{Pool, nsignature_pool, pool_init_alloc}
use neon_eds.Pool.Init.{alloc_all, pool_init_alloc-outside}

abbrev region : Pool
region = record {
  base = 4096;
  free = 0;
  size = 48;
  no_blocks = 3;
  signature = nsignature_pool;
  is_ready = false;
  next = λ a. 0;
}

-- The region ends at 4144.
pool_init_alloc-outside_example :
    (p₁ : Pool) × (pool_init_alloc true 4096 region 0 ≡ done (4096, p₁))
    × (alloc_all true p₁ 2 ≡ done (4144 ∷ 4192 ∷ []))
    × (p₁.free ≡ 2 ^ 64 - 16)
pool_init_alloc-outside_example =
    pool_init_alloc-outside true region 0 refl (omega arith) (omega arith) (omega arith)
      (omega arith) (omega arith)
