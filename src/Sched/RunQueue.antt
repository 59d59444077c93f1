-- ===== src/Sched/RunQueue.antt =====
-- What the priority queue of source/sched.c holds: a list of threads for each priority.
pub mod Insert
pub mod Remove
pub mod Rotate
use neon_eds.Common.{
  ℕ, ◌+◌, ◌<◌, ◌≡◌, ◌≢◌, List, [], ◌∷◌, ◌++◌, ◌∈◌, ◌∉◌, has, if◌then◌else◌, update, arith, Bool,
  true, false, ◌^◌, Bool-cases, inl, inr, ◌==◌, subst,
}
use neon_eds.Common.Bits.{testbit}
use neon_eds.Base.Dlist.Ring.{Ring, is_nil, is_empty-Ring}
use neon_eds.Base.BiasList.{BiasNodes, nbias_list_is_empty}
use neon_eds.Sched.{Sched, sentinel}

-- `ready b` is the list of bucket `b`: threads of that priority, none of them a sentinel.
pub record Buckets (h : BiasNodes) (ready : ℕ → List ℕ) : Type 0 where
  pub rings : (b : ℕ) → b < 32 → Ring h.list (sentinel b) (ready b)
  pub biases : (b x : ℕ) → b < 32 → x ∈ ready b → h.bias x ≡ b
  pub threads : (b x : ℕ) → b < 32 → x ∈ ready b → 32 < x

-- A bit of the bitmap is set where the bucket holds a thread.
pub record RunQueue (s : Sched) (ready : ℕ → List ℕ) : Type 0 where
  pub buckets : Buckets s.nodes ready
  pub bits : (b : ℕ) → b < 32 → testbit b s.bit ≡ (if is_nil (ready b) then 0 else 1)
  pub word : s.bit < 2 ^ 32

-- A thread that stands in no bucket.
abbrev pub Fresh : ℕ → (ℕ → List ℕ) → Type 0
Fresh n ready = (32 < n) × ((b : ℕ) → b < 32 → n ∉ ready b)

module _ {h : BiasNodes} {ready : ℕ → List ℕ} (q : Buckets h ready) where
  -- A sentinel stands in no bucket, and no other sentinel's list holds it.
  pub sentinel-outside : (b c : ℕ) → b < 32 → c < 32 → b ≢ c → sentinel b ∉ sentinel c ∷ ready c
  sentinel-outside b c hb hc ne = elim (Bool-cases (has (sentinel b) (ready c))) [
    | inl m ↦ absurd (omega (arith, q.threads c (sentinel b) hc m))
    | inr o ↦ ground arith
  ]

  -- A thread stands in one bucket only.
  pub thread-outside :
      (b c x : ℕ) → b < 32 → c < 32 → b ≢ c → x ∈ ready b → x ∉ sentinel c ∷ ready c
  thread-outside b c x hb hc ne m = elim (Bool-cases (has x (ready c))) [
    | inl m' ↦ absurd (omega (arith, q.biases b x hb m, q.biases c x hc m'))
    | inr o ↦ ground (arith, q.threads b x hb m)
  ]

  pub fresh-outside : (n c : ℕ) → Fresh n ready → c < 32 → n ∉ sentinel c ∷ ready c
  fresh-outside n c f hc = ground (arith, f.0, f.1 c hc)

  pub bucket_is_empty : (b : ℕ) → b < 32 → nbias_list_is_empty h (sentinel b) ≡ is_nil (ready b)
  unfolding nbias_list_is_empty
  bucket_is_empty b hb = is_empty-Ring h.list (sentinel b) (ready b) (q.rings b hb)

  -- The nodes of two buckets are apart.
  pub bucket-outside :
      (b c x : ℕ) → b < 32 → c < 32 → b ≢ c → x ∈ sentinel b ∷ ready b → x ∉ sentinel c ∷ ready c
  bucket-outside b c x hb hc ne m = elim (Bool-cases (x == sentinel b)) [
    | inl e ↦ let o = sentinel-outside b c hb hc ne in ground (arith, e, o)
    | inr e ↦ thread-outside b c x hb hc ne (ground (arith, e, m))
  ]

-- Where two accounts of the buckets agree.
pub same_ready :
    {s : Sched} {ready ready' : ℕ → List ℕ}
    → ((b : ℕ) → ready b ≡ ready' b)
    → RunQueue s ready
    → RunQueue s ready'
same_ready e q = subst (RunQueue _) (λ i b. e b i) q
