-- ===== src/Lmnt/Usage.antt =====
-- `get_max_stack_usage` (libelement/src/lmnt/compiler_state.cpp).
use element.Prelude.{
  ℕ, zero, suc, ◌+◌, ◌%◌, ◌^◌, ◌≤◌, ◌≡◌, ◌⊎◌, refl, sym, ◌∙◌, inl, inr, List, [], ◌∷◌, none, some,
  arith, max, get_elem?, Bool-cases, Option-cases, ◌==◌, leb, if◌then◌else◌,
}
use element.Lmnt.Allocation.{
  AllocationType, constant, input, output, local, StackAllocation, type, index,
}
use element.Lmnt.Allocator.{StackAllocator, depth, get, lookup, handle_at}
use element.Lmnt.NaiveAllocator.{usage, usage_all, usage_of, get_max_stack_usage}

-- A local allocation that ends, by its index and its size in 16 bits, at `n`.
abbrev pub EndsAt : StackAllocator → ℕ → ℕ → Type 0
EndsAt s h n =
    (j : ℕ) × (a : StackAllocation) × (type (depth s) s.alloc_storage h ≡ some local)
    × (index (depth s) s.alloc_storage h ≡ some j)
    × (get_elem? s.alloc_storage h ≡ some a)
    × (n ≡ (j + a.count) % 2 ^ 16)

-- One of the instructions has this allocation.
abbrev pub IsHeld : List (ℕ × List ℕ) → ℕ → Type 0
IsHeld allocs h =
    (m i : ℕ) × (hs : List ℕ) × (k : ℕ) × (get_elem? allocs m ≡ some (i, hs))
    × (get_elem? hs k ≡ some h)

max-cases : (a b : ℕ) → (max a b ≡ a) ⊎ (max a b ≡ b)
max-cases a b = elim (Bool-cases (leb a b)) [
  | inl e ↦ inr (ground arith)
  | inr e ↦ inl (ground arith)
]

module _ (s : StackAllocator) where
  usage-start : (cur : ℕ) (hs : List ℕ) → cur ≤ usage s cur hs
  unfolding usage
  usage-start cur [] = omega arith
  usage-start cur (h ∷ hs) = omega (arith, usage-start (max cur (usage_of s h)) hs)

  usage-bound :
      (cur : ℕ) (hs : List ℕ) (k h : ℕ) → get_elem? hs k ≡ some h → usage_of s h ≤ usage s cur hs
  unfolding usage
  usage-bound cur [] k h e = cc
  usage-bound cur (g ∷ hs) zero h e =
      let same : g ≡ h = cc in rw (← same) (omega (arith, usage-start (max cur (usage_of s g)) hs))
  usage-bound cur (g ∷ hs) (suc k) h e = usage-bound (max cur (usage_of s g)) hs k h e

  usage_all-start : (cur : ℕ) (allocs : List (ℕ × List ℕ)) → cur ≤ usage_all s cur allocs
  unfolding usage_all
  usage_all-start cur [] = omega arith
  usage_all-start cur ((i, hs) ∷ allocs) =
      omega (arith, usage-start cur hs, usage_all-start (usage s cur hs) allocs)

  usage_all-bound :
      (cur : ℕ) (allocs : List (ℕ × List ℕ)) (i k h : ℕ)
      → handle_at (lookup i allocs) k ≡ some h
      → usage_of s h ≤ usage_all s cur allocs
  unfolding usage_all
  usage_all-bound cur [] i k h e = cc
  usage_all-bound cur ((j, hs) ∷ allocs) i k h e = elim (Bool-cases (j == i)) [
    | inl t ↦ omega (
      arith,
      usage-bound cur hs k h (rw (t, if◌then◌else◌) at e),
      usage_all-start (usage s cur hs) allocs,
    )
    | inr t ↦ usage_all-bound (usage s cur hs) allocs i k h (rw (t, if◌then◌else◌) at e)
  ]

  EndsAt-usage_of : (h n : ℕ) → EndsAt s h n → usage_of s h ≡ n
  EndsAt-usage_of h n (j, a, t, i, g, e) = rw (t, i, g) (sym e)

  no_type :
      (h : ℕ) (u : AllocationType)
      → get_elem? s.alloc_storage h ≡ none
      → type (depth s) s.alloc_storage h ≡ some u
      → ⊥
  unfolding type
  no_type h u g t = let bad : none ≡ some u = rw g at t in cc

  usage_of-typed :
      (h : ℕ) (u : AllocationType) (j : ℕ) (a : StackAllocation)
      → type (depth s) s.alloc_storage h ≡ some u
      → index (depth s) s.alloc_storage h ≡ some j
      → get_elem? s.alloc_storage h ≡ some a
      → (usage_of s h ≡ 0) ⊎ EndsAt s h (usage_of s h)
  usage_of-typed h local j a t i g = inr (j, a, t, i, g, rw (t, i, g) refl)
  usage_of-typed h constant j a t i g = inl (rw (t, i) refl)
  usage_of-typed h input j a t i g = inl (rw (t, i) refl)
  usage_of-typed h output j a t i g = inl (rw (t, i) refl)

  usage_of-EndsAt : (h : ℕ) → (usage_of s h ≡ 0) ⊎ EndsAt s h (usage_of s h)
  usage_of-EndsAt h = elim (Option-cases (type (depth s) s.alloc_storage h)) [
    | inl t ↦ inl (rw t refl)
    | inr (u, t) ↦ elim (Option-cases (index (depth s) s.alloc_storage h)) [
      | inl i ↦ inl (rw (t, i) refl)
      | inr (j, i) ↦ elim (Option-cases (get_elem? s.alloc_storage h)) [
        | inl g ↦ inl (absurd (no_type h u g t))
        | inr (a, g) ↦ usage_of-typed h u j a t i g
      ]
    ]
  ]

  usage-attained :
      (cur : ℕ) (hs : List ℕ)
      → (usage s cur hs ≡ cur)
        ⊎ ((k h : ℕ) × (get_elem? hs k ≡ some h) × (usage s cur hs ≡ usage_of s h))
  unfolding usage
  usage-attained cur [] = inl refl
  usage-attained cur (h ∷ hs) = elim (usage-attained (max cur (usage_of s h)) hs) [
    | inr (k, g, e, q) ↦ inr (suc k, g, e, q)
    | inl e ↦ elim (max-cases cur (usage_of s h)) [
      | inl m ↦ inl (e ∙ m)
      | inr m ↦ inr (0, h, refl, e ∙ m)
    ]
  ]

  usage_all-attained :
      (cur : ℕ) (allocs : List (ℕ × List ℕ))
      → (usage_all s cur allocs ≡ cur)
        ⊎ ((h : ℕ) × IsHeld allocs h × (usage_all s cur allocs ≡ usage_of s h))
  unfolding usage_all
  usage_all-attained cur [] = inl refl
  usage_all-attained cur ((i, hs) ∷ allocs) = elim (usage_all-attained (usage s cur hs) allocs) [
    | inr (h, (m, j, gs, k, e, f), q) ↦ inr (h, (suc m, j, gs, k, e, f), q)
    | inl e ↦ elim (usage-attained cur hs) [
      | inl q ↦ inl (e ∙ q)
      | inr (k, h, f, q) ↦ inr (h, (0, i, hs, k, refl, f), e ∙ q)
    ]
  ]

-- The usage is the greatest end of a local allocation: it is not less than the end, by index and size in
-- 16 bits, of any local one that is found for an instruction; and it is 0 or the end of a local one that an
-- instruction has.
pub get_max_stack_usage-greatest :
    (s : StackAllocator) (i k h n : ℕ)
    → get s i k ≡ some h
    → EndsAt s h n
    → (n ≤ get_max_stack_usage s)
      × ((get_max_stack_usage s ≡ 0)
          ⊎ ((g : ℕ) × IsHeld s.allocations g × EndsAt s g (get_max_stack_usage s)))
unfolding get get_max_stack_usage
get_max_stack_usage-greatest s i k h n e x = (
  omega (arith, EndsAt-usage_of s h n x, usage_all-bound s 0 s.allocations i k h e),
  elim (usage_all-attained s 0 s.allocations) [
    | inl q ↦ inl q
    | inr (g, m, q) ↦ elim (usage_of-EndsAt s g) [
      | inl z ↦ inl (q ∙ z)
      | inr y ↦ inr (g, m, rw q y)
    ]
  ],
)
