-- ===== src/Heap/Settled.antt =====
-- Rows of blocks of a heap of source/heap.c in which no two free blocks stand next to each other.
use neon_eds.Common.{◌≡◌, List, [], ◌∷◌, ◌++◌, Bool, true, ◌&&◌, ◌||◌, arith}
use neon_eds.Heap.Layout.{Block}

-- The row starts, or ends, with a used block or is empty.
abbrev pub opens_used : List Block → Bool
opens_used [] = true
opens_used (b ∷ bs) = b.used

abbrev pub closes_used : List Block → Bool
closes_used [] = true
closes_used (b ∷ []) = b.used
closes_used (b ∷ d ∷ bs) = closes_used (d ∷ bs)

abbrev pub is_settled : List Block → Bool
is_settled [] = true
is_settled (b ∷ bs) = (b.used || opens_used bs) && is_settled bs

pub is_settled-append :
    (xs ys : List Block)
    → is_settled (xs ++ ys) ≡ (is_settled xs && is_settled ys && (closes_used xs || opens_used ys))
is_settled-append [] ys = ground arith
is_settled-append (b ∷ []) ys = ground arith
is_settled-append (b ∷ d ∷ xs) ys = ground (arith, is_settled-append (d ∷ xs) ys)

pub closes_used-last : (xs : List Block) (b : Block) → closes_used (xs ++ b ∷ []) ≡ b.used
closes_used-last [] b = ground arith
closes_used-last (x ∷ []) b = ground arith
closes_used-last (x ∷ y ∷ xs) b = closes_used-last (y ∷ xs) b
