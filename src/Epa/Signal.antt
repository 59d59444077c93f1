-- ===== src/Epa/Signal.antt =====
-- `nepa_send_signal_i` of source/epa.c: an event without data is created and sent.
use neon_eds.Common.{
  ℕ, ◌≡◌, ◌≢◌, inl, inr, List, [], ◌∷◌, ◌++◌, true, false, ◌==◌, Run, done, arith, refl, ap, ◌∙◌,
  ==_ne, Bool-cases,
}
use native.Mathlib.Decide.{ℕ_discrete}
use neon_eds.Base.Dlist.{null}
use neon_eds.Base.Queue.{nqueue_is_full}
use neon_eds.Base.Queue.Window.{contents}
use neon_eds.Sched.{nthread_get_current}
use neon_eds.Event.{Events, nevent_ref_up, below_limit, nevent_ref}
use neon_eds.Event.Lifetime.{nevent_create_i-fresh}
use neon_eds.Epa.{System, nerror_none, nepa_send_signal_i}
use neon_eds.Epa.Counts.{Tracked, Tracked-same, dynamic_up, below_limit-few}
use neon_eds.Epa.Agent.{keeps, IsAgent, IsAgent-events, IsAgent-managers, send-queued}

ref_up-id : (h : Events) (e : ℕ) → (nevent_ref_up h e).id ≡ h.id
unfolding nevent_ref_up
ref_up-id h e = elim (Bool-cases (h.attrib e == 0)) [ inl z ↦ rw z refl | inr z ↦ rw z refl ]

module _ {ℓ} {W : Type ℓ} (alloc : ℕ → ℕ → W → ℕ × W) (find : ℕ → Run ℕ)
    (free : ℕ → ℕ → W → W) where
  -- With the validation off, where the pool that is found has a block, one that the agent does not keep, and
  -- the queue of the agent is not full, a signal is a new event with the given identifier and one reference,
  -- queued last, and the counts of the agent stay in agreement with its queue.
  pub nepa_send_signal_i-queued :
      (k thread : ℕ) (hand kept : List ℕ) (s : System W) (w₁ : W) (header id mem e : ℕ)
      → IsAgent k thread hand kept s
      → find header ≡ done mem
      → alloc mem header s.managers ≡ (e, w₁)
      → e ≢ null
      → keeps k hand kept s e ≡ 0
      → nqueue_is_full s.queue ≡ false
      → (s' : System W) × (nepa_send_signal_i alloc find free false header s thread id
          ≡ done (nerror_none, s'))
        × IsAgent k thread hand kept s'
        × (contents k s'.queue ≡ contents k s.queue ++ e ∷ [])
        × (s'.events.id e ≡ id)
        × (s'.events.ref e ≡ 1)
  unfolding nepa_send_signal_i nthread_get_current
  nepa_send_signal_i-queued k thread hand kept s w₁ header id mem e a found block ne unkept room =
      let (h', created, dynamic, no_ref, named, _, others) =
        nevent_create_i-fresh alloc free find s.events s.sched.current s.managers w₁ header id mem e
          found block ne in
      let tracked : (x : ℕ) → Tracked h' x (keeps k hand kept s x) = λ x. elim (ℕ_discrete x e) [
        | yes at ↦ rw at (inr (dynamic, omega (arith, no_ref), omega (arith, unkept)))
        | no other ↦
            let (same_attrib, same_ref, _) = others x other in
            Tracked-same s.events h' x (keeps k hand kept s x) (keeps k hand kept s x) same_attrib
              same_ref (omega arith) (a.tracked x)
      ] in
      let a₁ =
        IsAgent-managers (record s { events = h' }) w₁ (IsAgent-events s h' kept a tracked) in
      let under : below_limit (nevent_ref h' e) ≡ true =
        below_limit-few h' e dynamic (omega (arith, no_ref)) ∙ ground (arith, no_ref) in
      let (s', run, a', more, events, _, _) =
        send-queued free k thread hand kept (record s { events = h'; managers = w₁ }) e a₁ under
          room in
      (
        s',
        rw (created, ==_ne e null ne) run,
        a',
        more,
        ap (λ (h : Events). h.id e) events ∙ ap (λ (f : ℕ → ℕ). f e) (ref_up-id h' e) ∙ named,
        ap (λ (h : Events). h.ref e) events
            ∙ dynamic_up h' e dynamic (omega (arith, no_ref))
            ∙ omega (arith, no_ref),
      )
