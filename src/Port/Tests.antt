-- ===== src/Port/Tests.antt =====
-- The logarithms of port/x86-64-linux-gcc at one number.
use neon_eds.Common.{◌≡◌, some, arith}
use neon_eds.Base.Bitop.{nlog2_8}
use neon_eds.Port.{ncore_log2}
use neon_eds.Port.Log.{ncore_log2-nlog2_8}

ncore_log2-nlog2_8_example : ncore_log2 200 ≡ some (nlog2_8 200)
ncore_log2-nlog2_8_example = ncore_log2-nlog2_8 200 (omega arith)
