-- ===== src/Base/Bitop/Tests.antt =====
-- The macros at the numbers of the comments of include/base/bitop.h.
use neon_eds.Common.{◌≡◌, refl}
use neon_eds.Base.Bitop.{nalign_up}

-- 149 is aligned to 4 bytes.
nalign_up_149 : nalign_up 64 32 149 4 ≡ 152
unfolding nalign_up
nalign_up_149 = refl
