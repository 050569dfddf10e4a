-- ===== src/Lmnt/Packed.antt =====
-- The places that the naive allocator (libelement/src/lmnt/naive_allocator.hpp) gives.
use element.Prelude.{
  ℕ, zero, suc, ◌+◌, ◌%◌, ◌^◌, ◌≤◌, ◌<◌, ◌≡◌, ◌≢◌, refl, ap, ◌∙◌, false, List, [], ◌∷◌, none, some,
  arith, All, get_elem?,
}
use element.Result.{ok}
use element.Lmnt.Allocation.{local, StackAllocation, type, pinned}
use element.Lmnt.Allocator.{StackAllocator, get, update}
use element.Lmnt.NaiveAllocator.{allocate}

-- From the last one back, these allocations lie behind one another, and end where the free part begins.
pub data IsPacked (storage : List StackAllocation) : List ℕ → ℕ → Type 0 where
  empty : {n : ℕ} → IsPacked storage [] n
  behind :
      {hs : List ℕ} {h m n : ℕ} (a : StackAllocation)
      → IsPacked storage hs m
      → get_elem? storage h ≡ some a
      → m ≤ a.rel_index
      → a.rel_index + a.count ≤ n
      → IsPacked storage (h ∷ hs) n

get_elem?-update :
    (f : StackAllocation → StackAllocation) (h : ℕ) (storage : List StackAllocation)
    (a : StackAllocation)
    → get_elem? storage h ≡ some a
    → get_elem? (update f h storage) h ≡ some (f a)
get_elem?-update f h [] a e = cc
get_elem?-update f zero (b ∷ storage) a e = let same : b ≡ a = cc in ap (λ x. some (f x)) same
get_elem?-update f (suc h) (b ∷ storage) a e = get_elem?-update f h storage a e

get_elem?-update-other :
    (f : StackAllocation → StackAllocation) (h g : ℕ) (storage : List StackAllocation)
    → g ≢ h
    → get_elem? (update f h storage) g ≡ get_elem? storage g
get_elem?-update-other f h g [] n = refl
get_elem?-update-other f zero zero (b ∷ storage) n = absurd (n refl)
get_elem?-update-other f zero (suc g) (b ∷ storage) n = refl
get_elem?-update-other f (suc h) zero (b ∷ storage) n = refl
get_elem?-update-other f (suc h) (suc g) (b ∷ storage) n =
    get_elem?-update-other f h g storage (λ e. n (ap suc e))

-- A change to another allocation moves none of these.
IsPacked-update :
    (f : StackAllocation → StackAllocation) (h : ℕ) (storage : List StackAllocation) {hs : List ℕ}
    {n : ℕ}
    → IsPacked storage hs n
    → All (λ g. g ≢ h) hs
    → IsPacked (update f h storage) hs n
IsPacked-update f h storage empty o = empty
IsPacked-update f h storage (behind {h = g} a p e l r) (o, os) =
    behind a (IsPacked-update f h storage p os) (get_elem?-update-other f h g storage o ∙ e) l r

-- An allocation of the storage that ends at `n` or before.
abbrev pub EndsBy : List StackAllocation → ℕ → ℕ → Type 0
EndsBy storage n g =
    (b : StackAllocation) × (get_elem? storage g ≡ some b) × (b.rel_index + b.count ≤ n)

EndsBy-le :
    (storage : List StackAllocation) (hs : List ℕ) {m n : ℕ}
    → m ≤ n
    → All (EndsBy storage m) hs
    → All (EndsBy storage n) hs
EndsBy-le storage [] l q = tt
EndsBy-le storage (h ∷ hs) l ((b, e, r), q) = ((b, e, omega arith), EndsBy-le storage hs l q)

-- What is placed ends where the free part begins, or before that.
IsPacked-end :
    (storage : List StackAllocation) {hs : List ℕ} {n : ℕ}
    → IsPacked storage hs n
    → All (EndsBy storage n) hs
IsPacked-end storage empty = tt
IsPacked-end storage (behind a p e l r) =
    ((a, e, r), EndsBy-le storage _ (omega arith) (IsPacked-end storage p))

-- Where an allocation is local, not pinned and has no parent, is none of those that are placed one behind
-- another, and the free part of the stack has room for it, `allocate` succeeds: the allocation keeps its
-- size and its place is where the free part has begun, which now begins behind it; the instructions
-- have the allocations that they had, and each other allocation
-- is as it was; those that were placed end at the new one or before, and all are placed one behind another.
pub allocate-IsPacked :
    (s : StackAllocator) (i k h : ℕ) (a : StackAllocation) (hs : List ℕ)
    → get s i k ≡ some h
    → get_elem? s.alloc_storage h ≡ some a
    → a.parent ≡ none
    → a.rel_type ≡ local
    → a.rel_pinned ≡ false
    → All (λ g. g ≢ h) hs
    → IsPacked s.alloc_storage hs s.cur_index
    → s.cur_index + a.count < 2 ^ 16
    → (s' : StackAllocator) × (allocate s i k ≡ some (ok, s'))
      × (get_elem? s'.alloc_storage h ≡ some (record a { rel_index = s.cur_index }))
      × ((g : ℕ) → g ≢ h → get_elem? s'.alloc_storage g ≡ get_elem? s.alloc_storage g)
      × (s'.cur_index ≡ s.cur_index + a.count)
      × (s'.allocations ≡ s.allocations)
      × All (EndsBy s.alloc_storage s.cur_index) hs
      × IsPacked s'.alloc_storage (h ∷ hs) s'.cur_index
unfolding allocate type pinned
allocate-IsPacked s i k h a hs g e p t f o q r =
    let place : StackAllocation → StackAllocation = λ b. record b { rel_index = s.cur_index } in
    let next : (s.cur_index + a.count) % 2 ^ 16 ≡ s.cur_index + a.count = omega arith in
    let here = get_elem?-update place h s.alloc_storage a e in
    (
      record s {
        alloc_storage = update place h s.alloc_storage;
        cur_index = (s.cur_index + a.count) % 2 ^ 16;
      },
      rw (g, e, p, t, f) (rw (e, p) refl),
      here,
      λ j n. get_elem?-update-other place h j s.alloc_storage n,
      next,
      refl,
      IsPacked-end s.alloc_storage q,
      behind (record a { rel_index = s.cur_index }) (IsPacked-update place h s.alloc_storage q o)
          here (omega arith) (omega (arith, next)),
    )
