-- ===== src/Event/Lifetime.antt =====
-- When an event of source/event.c is given back.
use neon_eds.Common.{
  sign_extend, ℕ, ◌<◌, ◌^◌, ◌≡◌, ◌≢◌, true, false, ltb, ◌==◌, if◌then◌else◌, update, Run, done,
  arith, refl, ap, update_self, update_ne, lt→ltb, Bool-cases, inl, inr, ◌∙◌,
}
use Prim.Native.Nat.{bit_or, max}
use neon_eds.Common.Bits.{bit_or-zero, testbit, testbit-bit_or}
use neon_eds.Base.Dlist.{null}
use neon_eds.Sched.{check}
use neon_eds.Event.{
  Events, nevent_attr_dynamic, nevent_attr_reserved, nevent_ref, nevent_destroy_i, nevent_lock,
  nevent_unlock, event_term, event_init, copy_event, nevent_forward, create_from, nevent_create_i,
}

pub nevent_ref_lem :
    (h : Events) (e : ℕ)
    → h.attrib e ≡ nevent_attr_dynamic
    → h.ref e < 2 ^ 31
    → nevent_ref h e ≡ h.ref e
unfolding nevent_ref sign_extend
nevent_ref_lem h e d small =
    let positive : ltb (h.ref e) (2 ^ 31) ≡ true = lt→ltb (h.ref e) (2 ^ 31) small in
    rw (d, positive) (bit_or-zero (h.ref e))

-- A reserved event has a reference, whatever its counter is.
reserved_ref :
    (h : Events) (e : ℕ) → h.attrib e ≡ nevent_attr_reserved → (nevent_ref h e == 0) ≡ false
unfolding nevent_ref testbit
reserved_ref h e d = elim (Bool-cases (nevent_ref h e == 0)) [
  | inr ne ↦ ne
  | inl z ↦
      let x = sign_extend (h.ref e) in
      let none : bit_or x 3840 ≡ 0 = ground (arith, z, d) in
      let bit : testbit 8 (bit_or x 3840) ≡ max (testbit 8 x) 1 = testbit-bit_or 8 x 3840 in
      let no_bit : testbit 8 (bit_or x 3840) ≡ 0 = ap (testbit 8) none in
      absurd (omega (arith, bit, no_bit))
]

-- A static event is never without a reference.
pub static_ref : (h : Events) (e : ℕ) → h.attrib e ≡ 0 → (nevent_ref h e == 0) ≡ false
unfolding nevent_ref testbit
static_ref h e d = elim (Bool-cases (nevent_ref h e == 0)) [
  | inr ne ↦ ne
  | inl z ↦
      let x = sign_extend (h.ref e) in
      let none : bit_or x 255 ≡ 0 = ground (arith, z, d) in
      let bit : testbit 0 (bit_or x 255) ≡ max (testbit 0 x) 1 = testbit-bit_or 0 x 255 in
      let no_bit : testbit 0 (bit_or x 255) ≡ 0 = ap (testbit 0) none in
      absurd (omega (arith, bit, no_bit))
]

module _ {ℓ} {W : Type ℓ} (free : ℕ → ℕ → W → W) where
  -- With the validation off, a dynamic event that is locked is not given back by `nevent_destroy_i`,
  -- whatever its reference count is; `nevent_unlock` makes it dynamic again, and gives it back exactly if
  -- the count is 0.
  pub nevent_lock-unlock :
      (h : Events) (w : W) (e : ℕ)
      → h.attrib e ≡ nevent_attr_dynamic
      → (h₁ : Events) × (h₂ : Events) × (nevent_lock false h e ≡ done h₁)
        × (nevent_destroy_i free false h₁ w e ≡ done (h₁, w))
        × (nevent_unlock free false h₁ w e
            ≡ done (h₂, (if h.ref e == 0 then free (h.mem e) e w else w)))
        × (h₂.attrib e ≡ nevent_attr_dynamic)
        × (h₂.ref ≡ h.ref)
  unfolding nevent_lock nevent_destroy_i nevent_unlock check event_term
  nevent_lock-unlock h w e d =
      let h₁ = record h { attrib = update h.attrib e nevent_attr_reserved } in
      let reserved : h₁.attrib e ≡ nevent_attr_reserved =
        update_self h.attrib e nevent_attr_reserved in
      (
        h₁,
        record h₁ { attrib = update h₁.attrib e nevent_attr_dynamic },
        rw d refl,
        rw (reserved_ref h₁ e reserved) refl,
        elim (Bool-cases (h.ref e == 0)) [
          | inl z ↦ rw (reserved, z) refl
          | inr z ↦ rw (reserved, z) refl
        ],
        update_self h₁.attrib e nevent_attr_dynamic,
        refl,
      )

module _ {ℓ} {W : Type ℓ} (alloc : ℕ → ℕ → W → ℕ × W) (free : ℕ → ℕ → W → W) where
  -- With the validation off, where the pool that is found has a block, `nevent_create_i` returns a dynamic
  -- event with the given identifier, which has no reference and goes back to that pool; the other events
  -- stay as they are.
  pub nevent_create_i-fresh :
      (find : ℕ → Run ℕ) (h : Events) (current : ℕ) (w w₁ : W) (size id mem e : ℕ)
      → find size ≡ done mem
      → alloc mem size w ≡ (e, w₁)
      → e ≢ null
      → (h' : Events) × (nevent_create_i alloc false find h current w size id ≡ done (e, h', w₁))
        × (h'.attrib e ≡ nevent_attr_dynamic)
        × (h'.ref e ≡ 0)
        × (h'.id e ≡ id)
        × (nevent_destroy_i free false h' w₁ e ≡ done (h', free mem e w₁))
        × ((x : ℕ)
            → x ≢ e
            → (h'.attrib x ≡ h.attrib x) × (h'.ref x ≡ h.ref x) × (h'.mem x ≡ h.mem x))
  unfolding nevent_create_i create_from event_init nevent_destroy_i event_term check
  nevent_create_i-fresh find h current w w₁ size id mem e found block ne =
      let h' = event_init false h e id mem size current in
      let some_block : (e == null) ≡ false = ground (arith, ne) in
      let dynamic : h'.attrib e ≡ nevent_attr_dynamic =
        update_self h.attrib e nevent_attr_dynamic in
      let no_ref : h'.ref e ≡ 0 = update_self h.ref e 0 in
      let from : h'.mem e ≡ mem = update_self h.mem e mem in
      (
        h',
        rw (found, block, some_block) refl,
        dynamic,
        no_ref,
        update_self h.id e id,
        rw (nevent_ref_lem h' e dynamic (omega (arith, no_ref)), no_ref, from) refl,
        λ x other. (
          update_ne h.attrib e nevent_attr_dynamic x other,
          update_ne h.ref e 0 x other,
          update_ne h.mem e mem x other,
        ),
      )

  -- With the validation off, the copy that `nevent_forward` makes of a static event does not know the pool
  -- that it comes from: it is given back to the null pointer.
  pub nevent_forward-static :
      (find : ℕ → Run ℕ) (h : Events) (current : ℕ) (w w₁ : W) (event id mem ret : ℕ)
      → h.mem event ≡ null
      → find (h.size event) ≡ done mem
      → alloc mem (h.size event) w ≡ (ret, w₁)
      → ret ≢ null
      → (h' : Events) × (nevent_forward alloc false find h current w event id ≡ done (ret, h', w₁))
        × (nevent_destroy_i free false h' w₁ ret ≡ done (h', free null ret w₁))
  unfolding nevent_forward event_init nevent_destroy_i event_term check copy_event
  nevent_forward-static find h current w w₁ event id mem ret static found block ne =
      let h' =
        event_init false (copy_event h ret event) ret id (h.mem event) (h.size event) current in
      let some_block : (ret == null) ≡ false = ground (arith, ne) in
      let no_mem : (h.mem event == null) ≡ true = ground (arith, static) in
      let dynamic : h'.attrib ret ≡ nevent_attr_dynamic =
        update_self (copy_event h ret event).attrib ret nevent_attr_dynamic in
      let no_ref : h'.ref ret ≡ 0 = update_self (copy_event h ret event).ref ret 0 in
      let from : h'.mem ret ≡ null =
        update_self (copy_event h ret event).mem ret (h.mem event) ∙ static in
      (
        h',
        rw (no_mem, found, block, some_block) refl,
        rw (nevent_ref_lem h' ret dynamic (omega (arith, no_ref)), no_ref, from) refl,
      )
