-- ===== src/Lmnt/AllPacked.antt =====
-- `allocate` of all the allocations of an instruction (libelement/src/lmnt/compiler_state.hpp), by the naive
-- allocator.
use mathlib.Core.List.{append_assoc}
use element.Prelude.{
  ℕ, suc, ◌+◌, ◌^◌, ◌<◌, ◌≡◌, ◌≢◌, refl, sym, ap, ◌∙◌, false, List, [], ◌∷◌, ◌++◌, none, some,
  arith, All, get_elem?, length, length-append, Bool-cases, inl, inr, ◌==◌, ==_iff,
}
use element.Result.{ok}
use element.Lmnt.Allocation.{local, StackAllocation}
use element.Lmnt.Allocator.{StackAllocator, get, lookup, count, count_of}
use element.Lmnt.NaiveAllocator.{allocate_from, allocate_all}
use element.Lmnt.Packed.{IsPacked, allocate-IsPacked}

-- Local allocations without pin and parent, different from one another and from those of `hs`, for which
-- there is room from the place `n` on, and which end at `m`.
abbrev pub Fit : List StackAllocation → List ℕ → List ℕ → ℕ → ℕ → Type 0
Fit storage [] hs n m = (n ≡ m) × (n < 2 ^ 16)
Fit storage (g ∷ gs) hs n m =
    (a : StackAllocation) × (get_elem? storage g ≡ some a)
    × (a.parent ≡ none)
    × (a.rel_type ≡ local)
    × (a.rel_pinned ≡ false)
    × All (λ h. h ≢ g) hs
    × Fit storage gs (g ∷ hs) (n + a.count) m

-- Behind those of `hs`, the last first.
abbrev pub onto : List ℕ → List ℕ → List ℕ
onto [] hs = hs
onto (g ∷ gs) hs = onto gs (g ∷ hs)

Fit-lt :
    (storage : List StackAllocation) (gs hs : List ℕ) (n m : ℕ) → Fit storage gs hs n m → n < 2 ^ 16
Fit-lt storage [] hs n m (e, l) = l
Fit-lt storage (g ∷ gs) hs n m (a, e, p, t, f, o, r) =
    let later = Fit-lt storage gs (g ∷ hs) (n + a.count) m r in omega arith

-- A change to one that has its place keeps this of the others.
data Holds (h : ℕ) : List ℕ → Type 0 where
  here : {hs : List ℕ} → Holds h (h ∷ hs)
  there : {g : ℕ} {hs : List ℕ} → Holds h hs → Holds h (g ∷ hs)

All-Holds : {h g : ℕ} {hs : List ℕ} → Holds h hs → All (λ i. i ≢ g) hs → h ≢ g
All-Holds here (o, os) = o
All-Holds (there x) (o, os) = All-Holds x os

Fit-same :
    (storage more : List StackAllocation) (h : ℕ) (gs hs : List ℕ) (n m : ℕ)
    → ((g : ℕ) → g ≢ h → get_elem? more g ≡ get_elem? storage g)
    → Holds h hs
    → Fit storage gs hs n m
    → Fit more gs hs n m
Fit-same storage more h [] hs n m k x r = r
Fit-same storage more h (g ∷ gs) hs n m k x (a, e, p, t, f, o, r) = (
  a,
  k g (λ q. All-Holds x o (sym q)) ∙ e,
  p,
  t,
  f,
  o,
  Fit-same storage more h gs (g ∷ hs) (n + a.count) m k (there x) r,
)

get_elem?-middle : (xs ys : List ℕ) (y : ℕ) → get_elem? (xs ++ (y ∷ ys)) (length xs) ≡ some y
get_elem?-middle [] ys y = refl
get_elem?-middle (x ∷ xs) ys y = get_elem?-middle xs ys y

get-middle :
    (s : StackAllocator) (i g : ℕ) (xs gs : List ℕ)
    → lookup i s.allocations ≡ some (xs ++ (g ∷ gs))
    → get s i (length xs) ≡ some g
unfolding get
get-middle s i g xs gs l = rw l (get_elem?-middle xs gs g)

length-concat : (xs : List ℕ) (g : ℕ) → length (xs ++ (g ∷ [])) ≡ suc (length xs)
length-concat xs g = length-append xs (g ∷ []) ∙ omega arith

-- Where one has been placed no size has changed.
same_size :
    (storage more : List StackAllocation) (h g : ℕ) (a : StackAllocation) (n : ℕ)
    → get_elem? storage h ≡ some a
    → get_elem? more h ≡ some (record a { rel_index = n })
    → ((j : ℕ) → j ≢ h → get_elem? more j ≡ get_elem? storage j)
    → count_of (get_elem? more g) ≡ count_of (get_elem? storage g)
same_size storage more h g a n e p k = elim (Bool-cases (g == h)) [
  | inl x ↦ rw ((==_iff g h).0 x) (rw (e, p) refl)
  | inr x ↦ ap count_of (k g (λ y. cc (x, (==_iff g h).1 y)))
]

-- The allocations from the `k`-th on.
allocate_from-IsPacked :
    (gs xs : List ℕ) (s : StackAllocator) (i m : ℕ) (hs : List ℕ)
    → lookup i s.allocations ≡ some (xs ++ gs)
    → IsPacked s.alloc_storage hs s.cur_index
    → Fit s.alloc_storage gs hs s.cur_index m
    → (s' : StackAllocator) × (allocate_from (length gs) (length xs) s i ≡ some (ok, s'))
      × IsPacked s'.alloc_storage (onto gs hs) s'.cur_index
      × (s'.cur_index ≡ m)
      × ((g : ℕ) → count_of (get_elem? s'.alloc_storage g) ≡ count_of (get_elem? s.alloc_storage g))
      × ((g : ℕ) → All (λ h. h ≢ g) gs → get_elem? s'.alloc_storage g ≡ get_elem? s.alloc_storage g)
unfolding allocate_from
allocate_from-IsPacked [] xs s i m hs l q (e, b) = (s, refl, q, e, λ g. refl, λ g o. refl)
allocate_from-IsPacked (g ∷ gs) xs s i m hs l q (a, e, p, t, f, o, r) =
    let (s', done, placed, kept, next, same, ends, packed) =
      allocate-IsPacked s i (length xs) g a hs (get-middle s i g xs gs l) e p t f o q
        (Fit-lt s.alloc_storage gs (g ∷ hs) (s.cur_index + a.count) m r) in
    let rest =
      allocate_from-IsPacked gs (xs ++ (g ∷ [])) s' i m (g ∷ hs)
        (ap (lookup i) same ∙ l ∙ ap some (sym (append_assoc xs (g ∷ []) gs))) packed
        (rw next (Fit-same s.alloc_storage s'.alloc_storage g gs (g ∷ hs) _ m kept here r)) in
    let (s'', e', q', m', sizes, others) = rest in
    (
      s'',
      rw done (rw (length-concat xs g) at e'),
      q',
      m',
      λ j. sizes j ∙ same_size s.alloc_storage s'.alloc_storage g j a s.cur_index e placed kept,
      λ j n. others j n.1 ∙ kept j (λ x. n.0 (sym x)),
    )

-- Where the allocations of an instruction are local, without pin and parent, different from one another and
-- from those that are placed one behind another, and the free part of the stack has room for all of them up to a
-- place, `allocate` of the instruction succeeds, and has placed them in their order behind the others; the free
-- part begins at that place; no allocation has another size, and those that the instruction does not have are
-- as they were.
pub allocate_all-IsPacked :
    (s : StackAllocator) (i : ℕ) (gs hs : List ℕ) (m : ℕ)
    → lookup i s.allocations ≡ some gs
    → IsPacked s.alloc_storage hs s.cur_index
    → Fit s.alloc_storage gs hs s.cur_index m
    → (s' : StackAllocator) × (allocate_all s i ≡ some (ok, s'))
      × IsPacked s'.alloc_storage (onto gs hs) s'.cur_index
      × (s'.cur_index ≡ m)
      × ((g : ℕ) → count_of (get_elem? s'.alloc_storage g) ≡ count_of (get_elem? s.alloc_storage g))
      × ((g : ℕ) → All (λ h. h ≢ g) gs → get_elem? s'.alloc_storage g ≡ get_elem? s.alloc_storage g)
unfolding allocate_all count
allocate_all-IsPacked s i gs hs m l q r =
    let (s', e, q', m', sizes, others) = allocate_from-IsPacked gs [] s i m hs l q r in
    (s', rw l e, q', m', sizes, others)
