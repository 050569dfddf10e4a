-- ===== src/Lmnt/Parents.antt =====
-- The recursion through the parents of an allocation (libelement/src/lmnt/compiler_state.hpp).
use element.Prelude.{
  ℕ, zero, suc, ◌+◌, ◌%◌, ◌^◌, ◌<◌, ◌≡◌, refl, ap, inl, inr, List, [], ◌∷◌, none, some, arith,
  length, get_elem?, Option-cases,
}
use element.Lmnt.Allocation.{StackAllocation, add_u16, type, pinned, index}

-- Parents are in the storage, and of a lower rank than what they hold.
abbrev pub Descends : (ℕ → ℕ) → List StackAllocation → Type 0
Descends rank storage =
    (h p : ℕ) (a : StackAllocation)
    → get_elem? storage h ≡ some a
    → a.parent ≡ some p
    → (rank p < rank h) × (p < length storage)

allocation_at :
    (storage : List StackAllocation) (h : ℕ)
    → h < length storage
    → (a : StackAllocation) × (get_elem? storage h ≡ some a)
allocation_at [] h l = elim l [ ]
allocation_at (a ∷ storage) zero l = (a, refl)
allocation_at (a ∷ storage) (suc h) l = allocation_at storage h (omega arith)

-- From an allocation through its parents to the one that has none: the offsets on the way, and the last.
pub data Chain (storage : List StackAllocation) : ℕ → List ℕ → StackAllocation → Type 0 where
  root :
      {h : ℕ} (a : StackAllocation)
      → get_elem? storage h ≡ some a
      → a.parent ≡ none
      → Chain storage h (a.rel_index ∷ []) a
  held :
      {h p : ℕ} {offsets : List ℕ} {b : StackAllocation} (a : StackAllocation)
      → get_elem? storage h ≡ some a
      → a.parent ≡ some p
      → Chain storage p offsets b
      → Chain storage h (a.rel_index ∷ offsets) b

abbrev pub sum_of : List ℕ → ℕ
sum_of [] = 0
sum_of (n ∷ ns) = n + sum_of ns

add_u16-sum : (n m : ℕ) → add_u16 n (m % 2 ^ 16) ≡ (n + m) % 2 ^ 16
add_u16-sum n m = omega arith

-- Where parents descend in rank, and there is more fuel than the rank of an allocation in the storage: its
-- parents end at one that has none, whose type and pin it has, and its index is the sum of the offsets
-- on the way there, wrapped around at 16 bits.
pub parents-Chain :
    (rank : ℕ → ℕ) (storage : List StackAllocation) (fuel h : ℕ)
    → Descends rank storage
    → h < length storage
    → rank h < fuel
    → (offsets : List ℕ) × (a : StackAllocation) × Chain storage h offsets a
      × (type fuel storage h ≡ some a.rel_type)
      × (pinned fuel storage h ≡ some a.rel_pinned)
      × (index fuel storage h ≡ some (sum_of offsets % 2 ^ 16))
unfolding type pinned index
parents-Chain rank storage zero h d l f = elim f [ ]
parents-Chain rank storage (suc fuel) h d l f =
    let (a, e) = allocation_at storage h l in
    elim (Option-cases a.parent) [
      | inl n ↦ (a.rel_index ∷ [], a, root a e n, rw (e, n) refl, rw (e, n) refl, rw (e, n) refl)
      | inr (p, n) ↦
          let (lower, inside) = d h p a e n in
          let (offsets, b, c, x, y, z) = parents-Chain rank storage fuel p d inside (omega arith) in
          (
            a.rel_index ∷ offsets,
            b,
            held a e n c,
            rw (e, n) x,
            rw (e, n) y,
            rw (e, n) (rw z (ap some (add_u16-sum a.rel_index (sum_of offsets)))),
          )
    ]
