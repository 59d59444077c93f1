-- ===== src/Epa/Counts.antt =====
-- The reference counts of the events that an agent keeps.
use neon_eds.Common.{
  ℕ, suc, ◌+◌, ◌-◌, ◌<◌, ◌≤◌, ◌^◌, ◌≡◌, ◌≢◌, ◌⊎◌, not, ◌&&◌, inl, inr, List, [], ◌∷◌, ◌++◌, true,
  false, ltb, ◌==◌, if◌then◌else◌, arith, refl, ◌∙◌, sym, update_self, update_ne, Bool-cases,
  lt→ltb, done,
}
use native.Mathlib.Decide.{ℕ_discrete}
use neon_eds.Sched.{check}
use neon_eds.Event.{
  Events, nevent_attr_dynamic, nevent_ref_limit, ncore_atomic_inc, ncore_atomic_dec, nevent_ref_up,
  nevent_ref_down, nevent_ref, below_limit, event_term, nevent_destroy_i,
}
use neon_eds.Event.Lifetime.{nevent_ref_lem}
use neon_eds.Epa.{System, destroy_event}

-- How often an event is in a queue.
abbrev pub occurrences : ℕ → List ℕ → ℕ
occurrences x [] = 0
occurrences x (y ∷ ys) = if x == y then suc (occurrences x ys) else occurrences x ys

pub occurrences-append :
    (x : ℕ) (xs ys : List ℕ) → occurrences x (xs ++ ys) ≡ occurrences x xs + occurrences x ys
occurrences-append x [] ys = omega arith
occurrences-append x (y ∷ xs) ys = ground (arith, occurrences-append x xs ys)

-- An event that something keeps `n` times: a static one, or a dynamic one with that many references.
abbrev pub Tracked : Events → ℕ → ℕ → Type 0
Tracked h e n =
    ((h.attrib e ≡ 0) × (below_limit (nevent_ref h e) ≡ true))
    ⊎ ((h.attrib e ≡ nevent_attr_dynamic) × (h.ref e ≤ nevent_ref_limit) × (n ≤ h.ref e))

pub Tracked-same :
    (h h' : Events) (e m n : ℕ)
    → h'.attrib e ≡ h.attrib e
    → h'.ref e ≡ h.ref e
    → m ≤ n
    → Tracked h e n
    → Tracked h' e m
unfolding nevent_ref
Tracked-same h h' e m n a r le (inl (static, room)) = inl (a ∙ static, rw (a, r) room)
Tracked-same h h' e m n a r le (inr (dynamic, few, enough)) =
    inr (a ∙ dynamic, omega (arith, r, few), omega (arith, r, le, enough))

pub ref_up-other : (h : Events) (e x : ℕ) → x ≢ e → (nevent_ref_up h e).ref x ≡ h.ref x
unfolding nevent_ref_up
ref_up-other h e x ne = elim (Bool-cases (h.attrib e == 0)) [
  | inl z ↦ rw z refl
  | inr z ↦ rw z (update_ne h.ref e (ncore_atomic_inc (h.ref e)) x ne)
]

pub ref_up-attrib : (h : Events) (e x : ℕ) → (nevent_ref_up h e).attrib x ≡ h.attrib x
unfolding nevent_ref_up
ref_up-attrib h e x = elim (Bool-cases (h.attrib e == 0)) [ inl z ↦ rw z refl | inr z ↦ rw z refl ]

pub ref_down-other : (h : Events) (e x : ℕ) → x ≢ e → (nevent_ref_down h e).ref x ≡ h.ref x
unfolding nevent_ref_down
ref_down-other h e x ne = elim (Bool-cases (h.attrib e == 0)) [
  | inl z ↦ rw z refl
  | inr z ↦ rw z (update_ne h.ref e (ncore_atomic_dec (h.ref e)) x ne)
]

pub ref_down-attrib : (h : Events) (e x : ℕ) → (nevent_ref_down h e).attrib x ≡ h.attrib x
unfolding nevent_ref_down
ref_down-attrib h e x = elim (Bool-cases (h.attrib e == 0)) [
  | inl z ↦ rw z refl
  | inr z ↦ rw z refl
]

pub ref_down-mem : (h : Events) (e : ℕ) → (nevent_ref_down h e).mem ≡ h.mem
unfolding nevent_ref_down
ref_down-mem h e = elim (Bool-cases (h.attrib e == 0)) [ inl z ↦ rw z refl | inr z ↦ rw z refl ]

pub ref_up-mem : (h : Events) (e : ℕ) → (nevent_ref_up h e).mem ≡ h.mem
unfolding nevent_ref_up
ref_up-mem h e = elim (Bool-cases (h.attrib e == 0)) [ inl z ↦ rw z refl | inr z ↦ rw z refl ]

-- The reference of an event is read from two of its fields.
pub nevent_ref-same :
    (h h' : Events) (e : ℕ)
    → h'.attrib e ≡ h.attrib e
    → h'.ref e ≡ h.ref e
    → nevent_ref h' e ≡ nevent_ref h e
unfolding nevent_ref
nevent_ref-same h h' e a r = rw (a, r) refl

-- A static event keeps its counter.
pub static_up : (h : Events) (e : ℕ) → h.attrib e ≡ 0 → nevent_ref_up h e ≡ h
unfolding nevent_ref_up
static_up h e z = rw z refl

pub static_down : (h : Events) (e : ℕ) → h.attrib e ≡ 0 → nevent_ref_down h e ≡ h
unfolding nevent_ref_down
static_down h e z = rw z refl

pub dynamic_up :
    (h : Events) (e : ℕ)
    → h.attrib e ≡ nevent_attr_dynamic
    → h.ref e ≤ nevent_ref_limit
    → (nevent_ref_up h e).ref e ≡ h.ref e + 1
unfolding nevent_ref_up ncore_atomic_inc
dynamic_up h e d few =
    let value : ncore_atomic_inc (h.ref e) ≡ h.ref e + 1 = ground (arith, few) in
    rw d (update_self h.ref e (ncore_atomic_inc (h.ref e)) ∙ value)

pub dynamic_down :
    (h : Events) (e : ℕ)
    → h.attrib e ≡ nevent_attr_dynamic
    → 0 < h.ref e
    → h.ref e < 2 ^ 31
    → (nevent_ref_down h e).ref e ≡ h.ref e - 1
unfolding nevent_ref_down ncore_atomic_dec
dynamic_down h e d some_ref few =
    let value : ncore_atomic_dec (h.ref e) ≡ h.ref e - 1 = ground (arith, some_ref, few) in
    rw d (update_self h.ref e (ncore_atomic_dec (h.ref e)) ∙ value)

pub below_limit-few :
    (h : Events) (e : ℕ)
    → h.attrib e ≡ nevent_attr_dynamic
    → h.ref e ≤ nevent_ref_limit
    → below_limit (nevent_ref h e) ≡ ltb (h.ref e) nevent_ref_limit
unfolding below_limit
below_limit-few h e d few = rw (nevent_ref_lem h e d (omega (arith, few))) (ground (arith, few))

-- One more is kept, with the reference that `nevent_ref_up` adds.
pub Tracked-up :
    (h : Events) (e n : ℕ)
    → below_limit (nevent_ref h e) ≡ true
    → Tracked h e n
    → Tracked (nevent_ref_up h e) e (suc n)
Tracked-up h e n room (inl (static, _)) = rw (static_up h e static) (inl (static, room))
Tracked-up h e n room (inr (d, few, enough)) =
    let up = dynamic_up h e d few in
    let under : ltb (h.ref e) nevent_ref_limit ≡ true = sym (below_limit-few h e d few) ∙ room in
    inr (ref_up-attrib h e e ∙ d, ground (arith, up, under), omega (arith, up, enough))

-- One less is kept, without the reference that `nevent_ref_down` takes.
pub Tracked-down :
    (h : Events) (e n : ℕ)
    → Tracked h e (suc n)
    → Tracked (nevent_ref_down h e) e n × (below_limit (nevent_ref (nevent_ref_down h e) e) ≡ true)
Tracked-down h e n (inl (static, room)) = rw (static_down h e static) (inl (static, room), room)
Tracked-down h e n (inr (d, few, enough)) =
    let down = dynamic_down h e d (omega (arith, enough)) (omega (arith, few)) in
    let d' : (nevent_ref_down h e).attrib e ≡ nevent_attr_dynamic = ref_down-attrib h e e ∙ d in
    let few' : (nevent_ref_down h e).ref e < nevent_ref_limit = omega (arith, down, few, enough) in
    (
      inr (d', omega (arith, few'), omega (arith, down, enough)),
      below_limit-few (nevent_ref_down h e) e d' (omega (arith, few')) ∙ lt→ltb _ _ few',
    )

-- Up and down again.
pub ref_up-down :
    (h : Events) (e x n : ℕ)
    → below_limit (nevent_ref h e) ≡ true
    → Tracked h e n
    → (nevent_ref_down (nevent_ref_up h e) e).ref x ≡ h.ref x
ref_up-down h e x n room (inl (static, _)) = rw (static_up h e static, static_down h e static) refl
ref_up-down h e x n room (inr (d, few, _)) = elim (ℕ_discrete x e) [
  | yes at ↦
      let up = dynamic_up h e d few in
      let down =
        dynamic_down (nevent_ref_up h e) e (ref_up-attrib h e e ∙ d) (omega (arith, up))
          (omega (arith, up, few)) in
      rw at (omega (arith, up, down))
  | no ne ↦ ref_down-other (nevent_ref_up h e) e x ne ∙ ref_up-other h e x ne
]

-- Down and up again.
pub ref_down-up :
    (h : Events) (e x n : ℕ)
    → Tracked h e (suc n)
    → (nevent_ref_up (nevent_ref_down h e) e).ref x ≡ h.ref x
ref_down-up h e x n (inl (static, _)) = rw (static_down h e static, static_up h e static) refl
ref_down-up h e x n (inr (d, few, enough)) = elim (ℕ_discrete x e) [
  | yes at ↦
      let down = dynamic_down h e d (omega (arith, enough)) (omega (arith, few)) in
      let up =
        dynamic_up (nevent_ref_down h e) e (ref_down-attrib h e e ∙ d) (omega (arith, down, few)) in
      rw at (omega (arith, up, down, enough))
  | no ne ↦ ref_up-other (nevent_ref_down h e) e x ne ∙ ref_down-other h e x ne
]

-- Exactly one reference more, of a dynamic event.
pub ref_up-count :
    (h : Events) (e n x : ℕ)
    → Tracked h e n
    → (nevent_ref_up h e).ref x
      ≡ (if (x == e) && not (h.attrib e == 0) then h.ref x + 1 else h.ref x)
ref_up-count h e n x (inl (static, _)) = rw (static_up h e static) (ground (arith, static))
ref_up-count h e n x (inr (d, few, _)) = elim (ℕ_discrete x e) [
  | yes at ↦ rw at (ground (arith, d, dynamic_up h e d few))
  | no ne ↦ ground (arith, ne, ref_up-other h e x ne)
]

module _ {ℓ} {W : Type ℓ} (free : ℕ → ℕ → W → W) where
  -- With the validation off, whatever is given back, the rest of the system stays.
  pub destroy-rest :
      (s : System W) (e : ℕ)
      → (w : W) × (destroy_event free false s e ≡ done (record s { managers = w }))
        × (w ≡ (
            if nevent_ref s.events e == 0 then free (s.events.mem e) e s.managers else s.managers))
  unfolding destroy_event nevent_destroy_i check event_term
  destroy-rest s e = elim (Bool-cases (nevent_ref s.events e == 0)) [
    | inl z ↦ (free (s.events.mem e) e s.managers, rw z refl, rw z refl)
    | inr z ↦ (s.managers, rw z refl, rw z refl)
  ]
