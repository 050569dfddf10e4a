-- ===== src/Lmnt/Constants.antt =====
-- `add_constant` and `find_constant` (libelement/src/lmnt/compiler_state.cpp).
use mathlib.Core.List.{append-nil}
use element.Prelude.{
  ℕ, suc, ◌-◌, ◌^◌, ◌<◌, ◌≡◌, refl, ap, true, false, inl, inr, List, [], ◌∷◌, ◌++◌, none, some,
  arith, length, leb, Bool-cases, Option-cases, if◌then◌else◌,
}
use element.Result.{ok}
use element.InstructionTree.Arithmetic.{Arithmetic}
use element.Lmnt.State.{position, add_constant, find_constant, found}

module _ (A : Arithmetic) where
  open A use {Value}

  -- A constant behind the others is found if none before it is equal.
  position-new :
      (v : Value) (cs : List Value)
      → A.equal v v ≡ true
      → position A v cs ≡ none
      → position A v (cs ++ v ∷ []) ≡ some (length cs)
  unfolding position
  position-new v [] r e = rw r refl
  position-new v (c ∷ cs) r e = elim (Bool-cases (A.equal c v)) [
    | inl t ↦ let bad : some 0 ≡ none = rw (t, if◌then◌else◌) at e in cc
    | inr t ↦ elim (Option-cases (position A v cs)) [
      | inl n ↦ rw (t, if◌then◌else◌) (rw (position-new v cs r n) refl)
      | inr (k, n) ↦ let bad : some (suc k) ≡ none = rw (t, if◌then◌else◌, n) at e in cc
    ]
  ]

  -- What is found stays where it is.
  position-append :
      (v : Value) (cs ds : List Value) (k : ℕ)
      → position A v cs ≡ some k
      → position A v (cs ++ ds) ≡ some k
  unfolding position
  position-append v [] ds k e = cc
  position-append v (c ∷ cs) ds k e = elim (Bool-cases (A.equal c v)) [
    | inl t ↦ rw (t, if◌then◌else◌) (rw (t, if◌then◌else◌) at e)
    | inr t ↦ elim (Option-cases (position A v cs)) [
      | inl n ↦ let bad : none ≡ some k = rw (t, if◌then◌else◌, n) at e in cc
      | inr (j, n) ↦
          let same : some (suc j) ≡ some k = rw (t, if◌then◌else◌, n) at e in
          rw (t, if◌then◌else◌) (rw (position-append v cs ds j n) same)
    ]
  ]

  position-lt : (v : Value) (cs : List Value) (k : ℕ) → position A v cs ≡ some k → k < length cs
  unfolding position
  position-lt v [] k e = cc
  position-lt v (c ∷ cs) k e = elim (Bool-cases (A.equal c v)) [
    | inl t ↦ let same : some 0 ≡ some k = rw (t, if◌then◌else◌) at e in ground arith
    | inr t ↦ elim (Option-cases (position A v cs)) [
      | inl n ↦ let bad : none ≡ some k = rw (t, if◌then◌else◌, n) at e in cc
      | inr (j, n) ↦
          let same : some (suc j) ≡ some k = rw (t, if◌then◌else◌, n) at e in
          let less = position-lt v cs j n in ground arith
    ]
  ]

-- Where there is room for one more, and no index is asked for, adding a constant that equals itself, as all
-- but NaN do, succeeds: from then on `find_constant` returns an index of this value that 16 bits hold, the
-- constants that were there stay in front, and each value that was found before is found where it was, as an
-- index that is asked for when it is added again.
pub add_constant-find_constant :
    (A : Arithmetic) (v : Arithmetic.Value A) (constants : List (Arithmetic.Value A))
    → A.equal v v ≡ true
    → length constants < 2 ^ 16 - 1
    → (more : List (Arithmetic.Value A)) × (k : ℕ) × (add_constant A v constants false
        ≡ some (ok, constants ++ more, none))
      × (k < 2 ^ 16)
      × (find_constant A v (constants ++ more) ≡ (ok, some k))
      × ((w : Arithmetic.Value A) (j : ℕ)
          → find_constant A w constants ≡ (ok, some j)
          → (find_constant A w (constants ++ more) ≡ (ok, some j))
            × (add_constant A w constants true ≡ some (ok, constants, some j)))
unfolding add_constant find_constant
add_constant-find_constant A v constants r l =
    let room : leb (2 ^ 16 - 1) (length constants) ≡ false = ground arith in
    elim (Option-cases (position A v constants)) [
      | inl e ↦ (
        v ∷ [],
        length constants,
        rw (room, e) refl,
        omega arith,
        rw (position-new A v constants r e) refl,
        λ w j h. kept room (v ∷ []) w j h,
      )
      | inr (k, e) ↦ (
        [],
        k,
        rw (room, e, append-nil constants) refl,
        omega (arith, position-lt A v constants k e),
        rw (position-append A v constants [] k e) refl,
        λ w j h. kept room [] w j h,
      )
    ]
  where
    kept :
        leb (2 ^ 16 - 1) (length constants) ≡ false
        → (more : List (Arithmetic.Value A)) (w : Arithmetic.Value A) (j : ℕ)
        → found (position A w constants) ≡ (ok, some j)
        → (found (position A w (constants ++ more)) ≡ (ok, some j))
          × (add_constant A w constants true ≡ some (ok, constants, some j))
    kept room more w j h = elim (Option-cases (position A w constants)) [
      | inl e ↦ let bad : none ≡ some j = ap (λ p. p.1) (rw e at h) in cc
      | inr (k, e) ↦
          let same : some k ≡ some j = ap (λ p. p.1) (rw e at h) in
          (
            rw (position-append A w constants more k e) (rw e at h),
            rw (room, e) (ap (λ i. some (ok, constants, i)) same),
          )
    ]
