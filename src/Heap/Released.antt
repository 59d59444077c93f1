-- ===== src/Heap/Released.antt =====
-- Runs of clients of the heap of source/heap.c, from the state that `heap_init_alloc` makes.
use neon_eds.Common.{
  ℕ, ◌+◌, ◌-◌, ◌<◌, ◌≤◌, ◌^◌, ◌≡◌, inl, inr, List, [], ◌∷◌, true, false, Bool-cases, done,
  >>=-eq-done, arith, refl, ap, ◌∙◌, subst,
}
use neon_eds.Heap.{Heap, heap_free, init_heap, nsignature_heap, int32_max}
use neon_eds.Heap.Layout.{Block, free_of, span, used_at}
use neon_eds.Heap.Settled.{is_settled}
use neon_eds.Heap.Invariant.{IsHeap}
use neon_eds.Heap.Init.{init_heap-IsHeap, sentinel_eq}
use neon_eds.Heap.Fuel.{heap_fuel}
use neon_eds.Heap.Owned.{Pieces, Owned, pick, drop_at}
use neon_eds.Heap.Disjoint.{Disjoint, Owned-Disjoint}
use neon_eds.Heap.Clients.{
  Request, take, give, IsRequest, AreRequests, Client, give_back, serve, serve_all, Served, Outcome,
  Answered, take-Served, serve-Served,
}

serve_all-Served :
    (base s : ℕ) (c : Client) (bs : List Block) (fs : List ℕ) (rs : List Request)
    → AreRequests rs
    → Served base s c bs fs
    → Outcome base s (serve_all heap_fuel c rs)
serve_all-Served base s c bs fs [] valid h = (c, bs, fs, refl, h)
serve_all-Served base s c bs fs (r ∷ rs) valid h =
    let (c₁, bs₁, fs₁, run₁, h₁) = serve-Served base s c bs fs h r valid.0 in
    let (c₂, bs₂, fs₂, run₂, h₂) = serve_all-Served base s c₁ bs₁ fs₁ rs valid.1 h₁ in
    (c₂, bs₂, fs₂, rw run₁ run₂, h₂)

-- Everything is given back, the first piece first.
abbrev pub give_all : Pieces → List Request
give_all [] = []
give_all (x ∷ held) = give 0 ∷ give_all held

give-held :
    (c c₁ : Client) (x : ℕ × ℕ) (held : Pieces)
    → c.held ≡ x ∷ held
    → serve heap_fuel c (give 0) ≡ done c₁
    → c₁.held ≡ held
unfolding pick drop_at
give-held c c₁ (mem, size) held e run =
    let taken = subst (λ l. give_back c 0 (pick l 0) ≡ done c₁) e run in
    let (s, freed, result) =
      >>=-eq-done (heap_free false c.heap mem)
        (λ s. done (record { heap = s; held = drop_at c.held 0 })) taken in
    let left : c₁.held ≡ drop_at c.held 0 = cc result in left ∙ ap (λ l. drop_at l 0) e

give_all-Served :
    (base s : ℕ) (held : Pieces) (c : Client) (bs : List Block) (fs : List ℕ)
    → Served base s c bs fs
    → c.held ≡ held
    → (c₁ : Client) × (bs₁ : List Block) × (fs₁ : List ℕ) × (serve_all heap_fuel c (give_all held)
        ≡ done c₁)
      × Served base s c₁ bs₁ fs₁
      × (c₁.held ≡ [])
give_all-Served base s [] c bs fs h e = (c, bs, fs, refl, h, e)
give_all-Served base s (x ∷ held) c bs fs h e =
    let (c₁, bs₁, fs₁, run₁, h₁) = serve-Served base s c bs fs h (give 0) tt in
    let (c₂, bs₂, fs₂, run₂, h₂, none) =
      give_all-Served base s held c₁ bs₁ fs₁ h₁ (give-held c c₁ x held e run₁) in
    (c₂, bs₂, fs₂, rw run₁ run₂, h₂, none)

-- A row without used blocks, and without free neighbours, is one free block.
one_free :
    (base : ℕ) (bs : List Block)
    → 0 < span bs
    → used_at base bs ≡ []
    → is_settled bs ≡ true
    → bs ≡ free_of (span bs - 16) ∷ []
one_free base [] some_bytes none settled = absurd (omega (arith, some_bytes))
one_free base (b ∷ bs) some_bytes none settled = elim (Bool-cases b.used) [
  | inl u ↦ absurd (taken u none)
  | inr f ↦ rest bs f settled none
]
  where
    taken : b.used ≡ true → used_at base (b ∷ bs) ≡ [] → ⊥
    taken u e = absurd (ground (arith, u, e))

    rest :
        (ds : List Block)
        → b.used ≡ false
        → is_settled (b ∷ ds) ≡ true
        → used_at base (b ∷ ds) ≡ []
        → b ∷ ds ≡ free_of (span (b ∷ ds) - 16) ∷ []
    rest [] f settled none =
        let bytes : b.size ≡ 16 + b.size + 0 - 16 = omega arith in
        λ k. record { size = bytes k; used = f k } ∷ []
    rest (d ∷ ds) f settled none = absurd (ground (arith, f, settled, none))

-- A client of a new heap of `st.size` bytes at `st.base`.
abbrev pub new_client : Heap → Client
new_client st = record { heap = init_heap st; held = [] }

module _ (st : Heap) (signed : st.signature ≡ nsignature_heap) (some_base : 0 < st.base)
    (large : 64 < st.size) (small : st.size < int32_max) (space : st.base + st.size ≤ 2 ^ 64)
    (rs : List Request) (valid : AreRequests rs) where
  run_state : Outcome st.base (st.base + st.size - 32) (serve_all heap_fuel (new_client st) rs)
  unfolding init_heap
  run_state =
      let at = sentinel_eq st some_base large small space in
      serve_all-Served st.base (st.base + st.size - 32) (new_client st)
        (free_of (st.size - 48) ∷ []) (st.base ∷ []) rs valid
        (record {
          state =
              subst
                (λ e.
                  IsHeap (init_heap st).blocks st.base e (free_of (st.size - 48) ∷ [])
                    (st.base ∷ []))
                at (init_heap-IsHeap st some_base large small space);
          sentinel = at;
          signed = signed;
          owned = refl;
          settled = refl;
        })

  -- With the validation off, in a new heap of more than 64 bytes and fewer than INT32_MAX, whatever
  -- a client does that asks for sizes above 0 and not above 2 ^ 31 - 16 and gives back only what it
  -- holds, every call returns within the fuel, and the pieces of memory that it then holds lie in
  -- the region and do not overlap; the next such size that it asks for is handed out as one more
  -- such piece, or nothing changes, where each free block is smaller than the aligned size.
  pub serve_all-Disjoint :
      (size : ℕ)
      → IsRequest (take size)
      → (c : Client) × (c₁ : Client) × (bs : List Block) × (fs : List ℕ) × (serve_all heap_fuel
            (new_client st)
            rs
          ≡ done c)
        × IsHeap c.heap.blocks st.base (st.base + st.size - 32) bs fs
        × Disjoint st.base (st.base + st.size - 32) c.held
        × (serve heap_fuel c (take size) ≡ done c₁)
        × Answered c fs size c₁
        × Disjoint st.base (st.base + st.size - 32) c₁.held
  serve_all-Disjoint size next =
      let (c, bs, fs, run, h) = run_state in
      let (c₁, bs₁, fs₁, run₁, h₁, answered) =
        take-Served st.base (st.base + st.size - 32) c bs fs h size next in
      (
        c,
        c₁,
        bs,
        fs,
        run,
        h.state,
        subst (λ e. Disjoint st.base e c.held) h.state.ends
            (Owned-Disjoint st.base bs c.held h.owned),
        run₁,
        answered,
        subst (λ e. Disjoint st.base e c₁.held) h₁.state.ends
            (Owned-Disjoint st.base bs₁ c₁.held h₁.owned),
      )

  -- With the validation off, in a new heap of more than 64 bytes and fewer than INT32_MAX, after
  -- any calls of a client that asks for sizes above 0 and not above 2 ^ 31 - 16 and gives back only
  -- what it holds, when it then gives back all of it, every call returns within the fuel, and the
  -- heap is one free block of the first size again.
  pub serve_all-released :
      (c : Client) × (c₁ : Client) × (fs : List ℕ) × (serve_all heap_fuel (new_client st) rs
        ≡ done c)
      × (serve_all heap_fuel c (give_all c.held) ≡ done c₁)
      × IsHeap c₁.heap.blocks st.base (st.base + st.size - 32) (free_of (st.size - 48) ∷ []) fs
  serve_all-released =
      let (c, bs, fs, run, h) = run_state in
      let (c₁, bs₁, fs₁, run₁, h₁, none_held) =
        give_all-Served st.base (st.base + st.size - 32) c.held c bs fs h refl in
      let bytes : span bs₁ ≡ st.size - 32 = omega (arith, h₁.state.ends, large) in
      let none : used_at st.base bs₁ ≡ [] =
        subst (Owned (used_at st.base bs₁)) none_held h₁.owned in
      let one : bs₁ ≡ free_of (st.size - 48) ∷ [] =
        one_free st.base bs₁ (omega (arith, bytes, large)) none h₁.settled
        ∙ ap (λ m. free_of m ∷ []) (omega (arith, bytes, large)) in
      (
        c,
        c₁,
        fs₁,
        run,
        run₁,
        subst (λ l. IsHeap c₁.heap.blocks st.base (st.base + st.size - 32) l fs₁) one h₁.state,
      )
