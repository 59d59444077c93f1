-- ===== src/Epa/Drain.antt =====
-- The events that are queued when an agent is destroyed by `nepa_destroy` of source/epa.c.
use neon_eds.Common.{
  ℕ, zero, suc, ◌<◌, ◌≡◌, inl, inr, List, [], ◌∷◌, true, false, ◌==◌, done, arith, refl, ap, ◌∙◌,
  length,
}
use neon_eds.Base.Queue.{nqueue_is_empty, nqueue_get}
use neon_eds.Base.Queue.Window.{IsValid, contents}
use neon_eds.Base.Queue.Refine.{nqueue_is_empty_lem}
use neon_eds.Sched.{check}
use neon_eds.Event.{nevent_ref, nevent_destroy_i}
use neon_eds.Event.Lifetime.{nevent_ref_lem, static_ref}
use neon_eds.Epa.{System, destroy_event, drain}
use neon_eds.Epa.Counts.{occurrences, Tracked, Tracked-same}
use neon_eds.Epa.Agent.{keeps, IsAgent}
use neon_eds.Epa.Defer.{get-first}

module _ {ℓ} {W : Type ℓ} (free : ℕ → ℕ → W → W) where
  -- With the validation off, an event that an agent works on, has queued or has put aside is not given back.
  pub destroy_event-kept :
      (s : System W) (e n : ℕ) → Tracked s.events e (suc n) → destroy_event free false s e ≡ done s
  unfolding destroy_event nevent_destroy_i check
  destroy_event-kept s e n (inl (static, _)) = rw (static_ref s.events e static) refl
  destroy_event-kept s e n (inr (d, few, enough)) =
      let counted : nevent_ref s.events e ≡ s.events.ref e =
        nevent_ref_lem s.events e d (omega (arith, few)) in
      let ne : (nevent_ref s.events e == 0) ≡ false = ground (arith, counted, enough) in rw ne refl

  drain-Tracked :
      (k fuel : ℕ) (xs : List ℕ) (s : System W)
      → IsValid k s.queue
      → contents k s.queue ≡ xs
      → ((e : ℕ) → Tracked s.events e (occurrences e xs))
      → length xs < fuel
      → (s' : System W) × (drain free false fuel s ≡ done s')
        × (contents k s'.queue ≡ [])
        × (s'.managers ≡ s.managers)
        × (s'.events ≡ s.events)
  unfolding drain
  drain-Tracked k zero xs s v all t enough = absurd (omega (arith, enough))
  drain-Tracked k (suc fuel) [] s v all t enough =
      let none_left : nqueue_is_empty s.queue ≡ true =
        nqueue_is_empty_lem k v ∙ ground (arith, ap length all) in
      (s, rw none_left refl, all, refl, refl)
  drain-Tracked k (suc fuel) (e ∷ xs) s v all t enough =
      let (some_item, head, v', left) = get-first k s.queue e xs v all in
      let s₁ : System W = record s { queue = (nqueue_get s.queue).1 } in
      let kept = destroy_event-kept s₁ e (occurrences e xs) (
        Tracked-same s.events s.events e (suc (occurrences e xs)) (occurrences e (e ∷ xs)) refl refl
          (ground arith) (t e)) in
      let (s', run, none_left, managers, events) =
        drain-Tracked k fuel xs s₁ v' left
          (λ x.
            Tracked-same s.events s.events x (occurrences x xs) (occurrences x (e ∷ xs)) refl refl
              (ground arith) (t x))
          (omega (arith, enough)) in
      (s', rw (some_item, head, kept) run, none_left, managers, events)

  -- With the validation off, the loop of `nepa_destroy` needs one round more than there are events in the
  -- queue: it empties the queue, but it gives none of the events back and takes none of their references.
  pub drain-leaks :
      (k thread : ℕ) (hand kept : List ℕ) (s : System W) (fuel : ℕ)
      → IsAgent k thread hand kept s
      → length (contents k s.queue) < fuel
      → (s' : System W) × (drain free false fuel s ≡ done s')
        × (contents k s'.queue ≡ [])
        × (s'.managers ≡ s.managers)
        × (s'.events ≡ s.events)
  drain-leaks k thread hand kept s fuel a enough =
      drain-Tracked k fuel (contents k s.queue) s a.queue refl
        (λ e.
          Tracked-same s.events s.events e (occurrences e (contents k s.queue))
            (keeps k hand kept s e) refl refl (omega arith) (a.tracked e))
        enough
