-- ===== src/Sched/RoundRobin.antt =====
-- The loop of `nthread_schedule` serves the threads of the highest priority in turn.
use neon_eds.Common.{
  ℕ, ◌≡◌, List, [], ◌∷◌, ◌++◌, update, arith, Bool, refl, ap, ==_refl, some, length, append-nil,
  append_assoc, ◌==◌, ◌∙◌, sym, Bool-cases, inl, inr,
}
use neon_eds.Sched.{Sched, schedule_rounds, after_round}
use neon_eds.Sched.RunQueue.{RunQueue, same_ready}
use neon_eds.Sched.RunQueue.Insert.{is_nil-appended}
use neon_eds.Sched.Schedule.{Highest, sched_schedule_i-Highest}

-- The function of a thread leaves the run queue as it is.
abbrev pub Quiet : (ℕ → Sched → Sched) → Type 0
Quiet run = (n : ℕ) (s : Sched) (ready : ℕ → List ℕ) → RunQueue s ready → RunQueue (run n s) ready

turned-Highest :
    (ready : ℕ → List ℕ) (b x : ℕ) (xs : List ℕ)
    → Highest ready b
    → Highest (update ready b (xs ++ x ∷ [])) b
turned-Highest ready b x xs h = record {
  below = h.below;
  inhabited = rw (==_refl b) (is_nil-appended xs x);
  top = λ c lo hi. ground (arith, h.top c lo hi);
}

turns :
    (v : Bool) (run : ℕ → Sched → Sched)
    → Quiet run
    → (xs ys : List ℕ) (s : Sched) (ready : ℕ → List ℕ) (b : ℕ) → RunQueue s ready
    → Highest ready b
    → ready b ≡ xs ++ ys
    → (s' : Sched) × (schedule_rounds v run (length xs) s ≡ some (xs, s'))
      × RunQueue s' (update ready b (ys ++ xs))
unfolding schedule_rounds after_round
turns v run quiet [] ys s ready b q h e = (s, refl, same_ready (λ c. same c) q)
  where
    same : (c : ℕ) → ready c ≡ update ready b (ys ++ []) c
    same c = elim (Bool-cases (c == b)) [
      | inl t ↦ let at_b : c ≡ b = ground arith in rw t (ap ready at_b ∙ e ∙ sym (append-nil ys))
      | inr f ↦ rw f refl
    ]
turns v run quiet (x ∷ xs) ys s ready b q h e =
    let (s₁, picked, q₁, _) = sched_schedule_i-Highest v s ready b x (xs ++ ys) q h e in
    let turned = (xs ++ ys) ++ x ∷ [] in
    let (s', rounds, q') =
      turns v run quiet xs (ys ++ x ∷ []) (run x s₁) (update ready b turned) b
        (quiet x s₁ (update ready b turned) q₁) (turned-Highest ready b x (xs ++ ys) h)
        (rw (==_refl b) (append_assoc xs ys (x ∷ []))) in
    (s', rw (picked, rounds) refl, same_ready (λ c. twice c turned) q')
  where
    twice :
        (c : ℕ) (l : List ℕ)
        → update (update ready b l) b ((ys ++ x ∷ []) ++ xs) c ≡ update ready b (ys ++ x ∷ xs) c
    twice c l = rw (append_assoc ys (x ∷ []) xs) (ground arith)

-- While the functions of the threads leave the run queue alone and the highest ready priority is under
-- 16, as many rounds as that priority has threads pick each of them once, in order, and leave the run
-- queue as it was.
pub schedule_rounds-round_robin :
    (v : Bool) (run : ℕ → Sched → Sched) (s : Sched) (ready : ℕ → List ℕ) (b : ℕ)
    → Quiet run
    → RunQueue s ready
    → Highest ready b
    → (s' : Sched) × (schedule_rounds v run (length (ready b)) s ≡ some (ready b, s'))
      × RunQueue s' ready
schedule_rounds-round_robin v run s ready b quiet q h =
    let (s', rounds, q') =
      turns v run quiet (ready b) [] s ready b q h (sym (append-nil (ready b))) in
    (s', rounds, same_ready (λ c. same c) q')
  where
    same : (c : ℕ) → update ready b (ready b) c ≡ ready c
    same c = elim (Bool-cases (c == b)) [
      | inl t ↦ let at_b : c ≡ b = ground arith in rw t (ap ready (sym at_b))
      | inr f ↦ rw f refl
    ]
