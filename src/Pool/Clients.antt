-- ===== src/Pool/Clients.antt =====
-- A client of the pool of source/pool.c, which gives back only blocks that it holds.
use neon_eds.Common.{
  ℕ, suc, ◌*◌, ◌<◌, ◌≤◌, ◌^◌, ◌≡◌, ◌≢◌, false, not, ◌&&◌, ◌==◌, if◌then◌else◌, Run, done, ◌>>=◌,
  List, [], ◌∷◌, ◌++◌, ◌∈◌, ◌∉◌, has, has-append, Distinct, Distinct-insert, Distinct-right,
  Distinct-apart, length, length-append, arith, refl, Bool-cases, inl, inr, ==_ne, ap,
}
use native.Mathlib.Nat.{mul-le-mul_right}
use neon_eds.Base.Dlist.{null}
use neon_eds.Pool.{Pool, block_size, pool_alloc, pool_free}
use neon_eds.Pool.FreeList.{FreeList, pool_alloc-FreeList, pool_alloc-no_block, pool_free-FreeList}

-- Distinct addresses but for `a`.
unfoldable pub without : ℕ → List ℕ → List ℕ
without a [] = []
without a (x ∷ xs) = if a == x then xs else x ∷ without a xs

has-without : (a b : ℕ) (l : List ℕ) → Distinct l → has b (without a l) ≡ (has b l && not (b == a))
unfolding without
has-without a b [] d = refl
has-without a b (x ∷ l) d = elim (Bool-cases (a == x)) [
  | inl e ↦ rw e (ground (arith, e, d))
  | inr e ↦ rw e (ground (arith, e, has-without a b l d.1))
]

Distinct-without : (a : ℕ) (l : List ℕ) → Distinct l → Distinct (without a l)
unfolding without
Distinct-without a [] d = tt
Distinct-without a (x ∷ l) d = elim (Bool-cases (a == x)) [
  | inl e ↦ rw e d.1
  | inr e ↦ rw e (ground (arith, d, has-without a x l d.1), Distinct-without a l d.1)
]

without-append : (a : ℕ) (xs ys : List ℕ) → a ∉ xs → without a (xs ++ ys) ≡ xs ++ without a ys
unfolding without
without-append a [] ys o = refl
without-append a (x ∷ xs) ys o =
    let ne : (a == x) ≡ false = ground arith in
    rw ne (ap (λ (l : List ℕ). x ∷ l) (without-append a xs ys (ground arith)))

length-without : (a : ℕ) (l : List ℕ) → a ∈ l → suc (length (without a l)) ≡ length l
unfolding without
length-without a [] m = absurd (ground arith)
length-without a (x ∷ l) m = elim (Bool-cases (a == x)) [
  | inl e ↦ rw e refl
  | inr e ↦ rw e (ap suc (length-without a l (ground arith)))
]

pub data Request : Type 0 where
  take : Request
  give : ℕ → Request

-- The pool, and the blocks that the client holds.
pub record Client : Type 0 where
  pub pool : Pool
  pub held : List ℕ

abbrev pub keep_block : Client → ℕ × Pool → Client
keep_block c (block, p) = record {
  pool = p;
  held = if block == null then c.held else block ∷ c.held;
}

abbrev pub serve : Client → Request → Run Client
serve c take = pool_alloc false c.pool 0 >>= λ r. done (keep_block c r)
serve c (give a) =
    if has a c.held
    then (pool_free false c.pool a >>= λ p. done (record { pool = p; held = without a c.held }))
    else done c

abbrev pub serve_all : Client → List Request → Run Client
serve_all c [] = done c
serve_all c (r ∷ rs) = serve c r >>= λ c₁. serve_all c₁ rs

-- Each block of the pool is free or held, and not both.
pub record Shared (blocks : List ℕ) (c : Client) (free : List ℕ) : Type 0 where
  pub list : FreeList c.pool free
  pub distinct : Distinct (free ++ c.held)
  pub same : (a : ℕ) → has a (free ++ c.held) ≡ has a blocks
  pub count : length (free ++ c.held) ≡ length blocks
  pub no_null : null ∉ blocks
  pub room : length blocks * block_size c.pool < 2 ^ 64

module _ (blocks : List ℕ) (c : Client) where
  bytes_bound :
      (free : List ℕ) (n : ℕ)
      → Shared blocks c free
      → n ≤ length blocks
      → n * block_size c.pool < 2 ^ 64
  bytes_bound free n h le = omega (arith, h.room, mul-le-mul_right (block_size c.pool) le)

  take-Shared :
      (free : List ℕ)
      → Shared blocks c free
      → (c' : Client) × (free' : List ℕ) × (serve c take ≡ done c') × Shared blocks c' free'
  take-Shared [] h = (c, [], rw (pool_alloc-no_block false c.pool 0 h.list) refl, h)
  take-Shared (x ∷ xs) h =
      let few : suc (length xs) ≤ length blocks =
        omega (arith, h.count, length-append (x ∷ xs) c.held) in
      let bound : c.pool.free < 2 ^ 64 =
        omega (arith, h.list.bytes, bytes_bound (x ∷ xs) (suc (length xs)) h few) in
      let (p', run, list, shape) = pool_alloc-FreeList false c.pool x xs 0 h.list bound in
      let fresh : (x == null) ≡ false = ==_ne x null h.list.linked.1 in
      (
        record { pool = p'; held = x ∷ c.held },
        xs,
        rw (run, fresh) refl,
        record {
          list = list;
          distinct =
              Distinct-insert xs x c.held h.distinct.1
                (ground (arith, h.distinct, has-append x xs c.held))
                (ground (arith, h.distinct, has-append x xs c.held));
          same =
              λ a. ground (arith, h.same a, has-append a xs c.held, has-append a xs (x ∷ c.held));
          count = omega (arith, h.count, length-append xs c.held, length-append xs (x ∷ c.held));
          no_null = h.no_null;
          room = rw shape h.room;
        },
      )

  give-Shared :
      (a : ℕ) (free : List ℕ)
      → Shared blocks c free
      → (c' : Client) × (free' : List ℕ) × (serve c (give a) ≡ done c') × Shared blocks c' free'
  give-Shared a free h = elim (Bool-cases (has a c.held)) [
    | inr e ↦ (c, free, rw e refl, h)
    | inl e ↦
        let out : a ∉ free = apart e in
        let a_block : a ∈ blocks = ground (arith, e, h.same a, has-append a free c.held) in
        let ne : a ≢ null = λ z. absurd (ground (arith, z, a_block, h.no_null)) in
        let less = length-without a c.held e in
        let few : suc (length free) ≤ length blocks =
          omega (arith, h.count, length-append free c.held, less) in
        let (p', run, list, shape) =
          pool_free-FreeList false c.pool a free h.list ne out
            (bytes_bound free (suc (length free)) h few) in
        (
          record { pool = p'; held = without a c.held },
          a ∷ free,
          rw (e, run) refl,
          record {
            list = list;
            distinct = (
              rw (← without-append a free c.held out)
                  (ground (arith, has-without a a (free ++ c.held) h.distinct)),
              rw (← without-append a free c.held out)
                  (Distinct-without a (free ++ c.held) h.distinct),
            );
            same = λ b. ground (
              arith,
              h.same b,
              has-append b free c.held,
              has-append b free (without a c.held),
              a_block,
              has-without a b c.held (Distinct-right free c.held h.distinct),
            );
            count = omega (
              arith,
              h.count,
              length-append free c.held,
              length-append free (without a c.held),
              less,
            );
            no_null = h.no_null;
            room = rw shape h.room;
          },
        )
  ]
    where
      apart : a ∈ c.held → a ∉ free
      apart e = elim (Bool-cases (has a free)) [
        | inl i ↦ absurd (ground (arith, e, Distinct-apart free c.held a h.distinct i))
        | inr o ↦ o
      ]

serve-Shared :
    (blocks : List ℕ) (c : Client) (free : List ℕ) (r : Request)
    → Shared blocks c free
    → (c' : Client) × (free' : List ℕ) × (serve c r ≡ done c') × Shared blocks c' free'
serve-Shared blocks c free take h = take-Shared blocks c free h
serve-Shared blocks c free (give a) h = give-Shared blocks c a free h

-- With the validation off, whatever a client asks for, as long as it gives back only blocks that it holds,
-- each block of the pool stays either free or held and never both, and no block is lost.
pub serve_all-Shared :
    (blocks : List ℕ) (c : Client) (free : List ℕ) (rs : List Request)
    → Shared blocks c free
    → (c' : Client) × (free' : List ℕ) × (serve_all c rs ≡ done c') × Shared blocks c' free'
serve_all-Shared blocks c free [] h = (c, free, refl, h)
serve_all-Shared blocks c free (r ∷ rs) h =
    let (c₁, free₁, run, h₁) = serve-Shared blocks c free r h in
    let (c', free', run', h') = serve_all-Shared blocks c₁ free₁ rs h₁ in
    (c', free', rw (run, run') refl, h')
