-- ===== src/Base/Queue/Tests.antt =====
-- A queue of four slots that goes round the end of its buffer.
use neon_eds.Common.{◌^◌, ◌≡◌, refl, [], ◌∷◌, arith}
use neon_eds.Base.Queue.{Nqueue}
use neon_eds.Base.Queue.Window.{IsValid, contents}
use neon_eds.Base.Queue.Clients.{put, put_ahead, get, run, spec_run, run_refines}

abbrev wrapped : Nqueue
wrapped = record { head = 1; tail = 3; empty = 2; mask = 3; buf = 8 ∷ 0 ∷ 0 ∷ 7 ∷ [] }

wrapped-IsValid : IsValid 2 wrapped
wrapped-IsValid = omega arith

wrapped_holds : contents 2 wrapped ≡ 7 ∷ 8 ∷ []
wrapped_holds = refl

run_refines_example :
    ((run wrapped (put 5 ∷ put_ahead 6 ∷ put 4 ∷ get ∷ [])).0
      ≡ (spec_run (2 ^ 2) (7 ∷ 8 ∷ []) (put 5 ∷ put_ahead 6 ∷ put 4 ∷ get ∷ [])).0)
    × (contents 2 (run wrapped (put 5 ∷ put_ahead 6 ∷ put 4 ∷ get ∷ [])).1
        ≡ (spec_run (2 ^ 2) (7 ∷ 8 ∷ []) (put 5 ∷ put_ahead 6 ∷ put 4 ∷ get ∷ [])).1)
run_refines_example = run_refines 2 wrapped (put 5 ∷ put_ahead 6 ∷ put 4 ∷ get ∷ []) wrapped-IsValid
