-- ===== src/Heap/Clients.antt =====
-- A client of the heap of source/heap.c, which gives back only memory that it holds.
use neon_eds.Common.{
  ℕ, ◌+◌, ◌≤◌, ◌^◌, ◌≡◌, ◌≢◌, ◌<◌, ◌∈◌, ◌⊎◌, inl, inr, List, [], ◌∷◌, ◌++◌, true, false, ◌==◌,
  if◌then◌else◌, Option, none, some, Run, done, ◌>>=◌, arith, refl, ap, ◌∙◌, sym, subst,
}
use neon_eds.Base.Bitop.{nalign_up}
use neon_eds.Base.Dlist.{null}
use neon_eds.Heap.{Heap, heap_alloc, heap_free, nsignature_heap}
use neon_eds.Heap.Layout.{Block, span, used_at}
use neon_eds.Heap.Settled.{is_settled}
use neon_eds.Heap.Invariant.{IsHeap}
use neon_eds.Heap.Alloc.{heap_alloc-IsHeap, aligned}
use neon_eds.Heap.Free.{heap_free-IsHeap}
use neon_eds.Heap.Fuel.{heap_fuel, heap_fuel_lem}
use neon_eds.Heap.Owned.{Pieces, Owned, pick, drop_at, Owned-drop, used_at-split}

-- Memory of some size is asked for, or the piece at a position is given back.
pub data Request : Type 0 where
  take : ℕ → Request
  give : ℕ → Request

-- Sizes that `heap_alloc` serves right.
abbrev pub IsRequest : Request → Type 0
IsRequest (take size) = (size ≢ 0) × (size + 16 ≤ 2 ^ 31)
IsRequest (give i) = Unit

abbrev pub AreRequests : List Request → Type 0
AreRequests [] = Unit {0}
AreRequests (r ∷ rs) = IsRequest r × AreRequests rs

-- The heap, and the memory (address and size) that the client holds.
pub record Client : Type 0 where
  pub heap : Heap
  pub held : Pieces

abbrev pub keep_piece : Client → ℕ → ℕ × Heap → Client
keep_piece c size (mem, s) = record {
  heap = s;
  held = if mem == null then c.held else (mem, size) ∷ c.held;
}

abbrev pub give_back : Client → ℕ → Option (ℕ × ℕ) → Run Client
give_back c i none = done c
give_back c i (some (mem, size)) =
    heap_free false c.heap mem >>= λ s. done (record { heap = s; held = drop_at c.held i })

abbrev pub serve : ℕ → Client → Request → Run Client
serve fuel c (take size) = heap_alloc false fuel c.heap size >>= λ r. done (keep_piece c size r)
serve fuel c (give i) = give_back c i (pick c.held i)

abbrev pub serve_all : ℕ → Client → List Request → Run Client
serve_all fuel c [] = done c
serve_all fuel c (r ∷ rs) = serve fuel c r >>= λ c₁. serve_all fuel c₁ rs

-- Each used block holds one piece of the client, and no two free blocks stand next to each other.
pub record Served (base s : ℕ) (c : Client) (bs : List Block) (fs : List ℕ) : Type 0 where
  pub state : IsHeap c.heap.blocks base s bs fs
  pub sentinel : c.heap.base ≡ s
  pub signed : c.heap.signature ≡ nsignature_heap
  pub owned : Owned (used_at base bs) c.held
  pub settled : is_settled bs ≡ true

-- The client and the heap after a run.
abbrev pub Outcome : ℕ → ℕ → Run Client → Type 0
Outcome base s run =
    (c : Client) × (bs : List Block) × (fs : List ℕ) × (run ≡ done c) × Served base s c bs fs

-- Memory of `size` bytes is handed out, or nothing changes, and each of the free blocks `fs` is smaller
-- than the aligned size.
abbrev pub Answered : Client → List ℕ → ℕ → Client → Type 0
Answered c fs size c₁ =
    ((mem : ℕ) × (c₁.held ≡ (mem, size) ∷ c.held))
    ⊎ ((c₁ ≡ c) × ((x : ℕ) → x ∈ fs → c.heap.blocks.size x < nalign_up 64 64 size 16))

module _ (base s : ℕ) (c : Client) (bs : List Block) (fs : List ℕ) (h : Served base s c bs fs) where
  at_base : IsHeap c.heap.blocks base c.heap.base bs fs
  at_base = subst (λ e. IsHeap c.heap.blocks base e bs fs) (sym h.sentinel) h.state

  pub take-Served :
      (size : ℕ)
      → IsRequest (take size)
      → (c₁ : Client) × (bs₁ : List Block) × (fs₁ : List ℕ) × (serve heap_fuel c (take size)
          ≡ done c₁)
        × Served base s c₁ bs₁ fs₁
        × Answered c fs size c₁
  take-Served size (some_size, bound) =
      elim (heap_alloc-IsHeap false heap_fuel c.heap base bs fs size at_base h.signed some_size
        bound (heap_fuel_lem c.heap.blocks base s bs fs h.state)) [
          | inl (all_small, run) ↦ (c, bs, fs, rw run refl, h, inr (refl, all_small))
          | inr (b, g, run, a) ↦
              let some_mem : (b + 16 == null) ≡ false = ground arith in
              (
                record { heap = record c.heap { blocks = g }; held = (b + 16, size) ∷ c.held },
                a.blocks,
                a.frees,
                rw (run, some_mem) refl,
                record {
                  state = subst (λ e. IsHeap g base e a.blocks a.frees) h.sentinel a.state;
                  sentinel = h.sentinel;
                  signed = h.signed;
                  owned = (
                    a.before,
                    b,
                    a.bytes,
                    a.after,
                    a.held,
                    refl,
                    omega (arith, a.enough, aligned size some_size bound),
                    subst (λ u. Owned u c.held) a.old h.owned,
                  );
                  settled = a.settled h.settled;
                },
                inl (b + 16, refl),
              )
        ]

  give-Served : (i : ℕ) → Outcome base s (serve heap_fuel c (give i))
  give-Served i = go (pick c.held i) refl
    where
      go : (found : Option (ℕ × ℕ)) → pick c.held i ≡ found → Outcome base s (give_back c i found)
      go none e = (c, bs, fs, refl, h)
      go (some (mem, size)) e =
          let (b, d, n, a, split, at, room, rest) =
            Owned-drop (used_at base bs) c.held i mem size e h.owned in
          let (xs, ys, row, d_at, l, r) = used_at-split base bs b d n a split in
          let (g, run, f) =
            heap_free-IsHeap false c.heap base xs n ys fs
              (subst (λ l. IsHeap c.heap.blocks base c.heap.base l fs) row at_base) h.signed in
          let mem_at : mem ≡ base + span xs + 16 = omega (arith, at, d_at) in
          let left : used_at base f.blocks ≡ b ++ a =
            f.held
            ∙ ap (λ l. l ++ used_at (base + span xs + 16 + n) ys) l
            ∙ ap (λ e. b ++ used_at (e + 16 + n) ys) (sym d_at)
            ∙ ap (λ l. b ++ l) r in
          (
            record { heap = record c.heap { blocks = g }; held = drop_at c.held i },
            f.blocks,
            f.frees,
            rw (mem_at, run) refl,
            record {
              state = subst (λ e. IsHeap g base e f.blocks f.frees) h.sentinel f.state;
              sentinel = h.sentinel;
              signed = h.signed;
              owned = subst (λ u. Owned u (drop_at c.held i)) (sym left) rest;
              settled = f.settled (ap is_settled (sym row) ∙ h.settled);
            },
          )

pub serve-Served :
    (base s : ℕ) (c : Client) (bs : List Block) (fs : List ℕ)
    → Served base s c bs fs
    → (r : Request) → IsRequest r
    → Outcome base s (serve heap_fuel c r)
serve-Served base s c bs fs h (take size) valid =
    let (c₁, bs₁, fs₁, run, h₁, answered) = take-Served base s c bs fs h size valid in
    (c₁, bs₁, fs₁, run, h₁)
serve-Served base s c bs fs h (give i) valid = give-Served base s c bs fs h i
