-- ===== src/Parser/WordsLaws.antt =====
-- The words that libelement/src/ast/parser_internal.cpp keeps for itself, as a statement.
use element.Prelude.{
  ◌≡◌, refl, ◌≢◌, ◌↔◌, ◌⊎◌, inl, inr, Bool, true, false, ◌||◌, not, ◌&&◌, List, ℕ, arith,
  if◌then◌else◌,
}
use element.Result.{ok, reserved_identifier}
use element.Parser.Names.{same_text-false}
use element.Parser.Words.{word, same_text, check_reserved_words}

if-ok_iff : (b : Bool) → ((if b then ok else reserved_identifier) ≡ ok) ↔ (b ≡ true)
if-ok_iff true = (λ e. refl, λ e. refl)
if-ok_iff false = (λ e. cc, λ e. cc)

or_map : {X Y Z : Type 0} → (Y → Z) → X ⊎ Y → X ⊎ Z
or_map f (inl x) = inl x
or_map f (inr y) = inr (f y)

words_lem :
    (q a b c r args names : Bool)
    → ((not q && not (a || b || c) && (args || not false) && (names || not r)) ≡ true)
      ↔ ((q ≡ false) × (a ≡ false) × (b ≡ false) × (c ≡ false) × ((names ≡ true) ⊎ (r ≡ false)))
words_lem q a b c r args names = ground arith

-- A name is accepted exactly if it is none of `intrinsic`, `struct`, `namespace` and `constraint`, and not `return`
-- but where that is allowed.
pub check_reserved_words_iff :
    (t : List ℕ) (args names : Bool)
    → (check_reserved_words t args names ≡ ok) ↔ (
        (t ≢ word "intrinsic")
        × (t ≢ word "struct")
        × (t ≢ word "namespace")
        × (t ≢ word "constraint")
        × ((names ≡ true) ⊎ (t ≢ word "return")))
unfolding check_reserved_words
check_reserved_words_iff t args names =
    let q = same_text t (word "intrinsic") in
    let a = same_text t (word "struct") in
    let b = same_text t (word "namespace") in
    let c = same_text t (word "constraint") in
    let r = same_text t (word "return") in
    let (f, g) =
      if-ok_iff (not q && not (a || b || c) && (args || not false) && (names || not r)) in
    let (f₁, g₁) = words_lem q a b c r args names in
    let (i, i') = same_text-false t (word "intrinsic") in
    let (s, s') = same_text-false t (word "struct") in
    let (n, n') = same_text-false t (word "namespace") in
    let (k, k') = same_text-false t (word "constraint") in
    let (x, x') = same_text-false t (word "return") in
    (
      λ e. let (u, v, w, y, z) = f₁ (f e) in (i u, s v, n w, k y, or_map x z),
      λ (u, v, w, y, z). g (g₁ (i' u, s' v, n' w, k' y, or_map x' z)),
    )
