-- ===== src/Parser/Names.antt =====
-- Names, as the validation of libelement/src/ast/parser_internal.cpp compares them.
use element.Prelude.{
  ℕ, List, [], ◌∷◌, Bool, true, false, ◌||◌, ◌==◌, ◌≡◌, refl, ◌≢◌, ◌↔◌, inl, inr, All, arith,
  Bool-cases, ==_iff, and-true,
}
use element.Parser.Words.{same_text}
use element.Parser.Validate.{contains_name}

pub same_text_iff : (a b : List ℕ) → (same_text a b ≡ true) ↔ (a ≡ b)
same_text_iff [] [] = (λ e. refl, λ e. refl)
same_text_iff [] (d ∷ ds) = (λ e. cc, λ e. cc)
same_text_iff (c ∷ cs) [] = (λ e. cc, λ e. cc)
same_text_iff (c ∷ cs) (d ∷ ds) = (
  λ e.
      let (p, q) = and-true (c == d) (same_text cs ds) e in
      let x = (==_iff c d).0 p in let y = (same_text_iff cs ds).0 q in rw (x, y),
  λ e.
      let x : c ≡ d = cc in
      let y : cs ≡ ds = cc in rw ((==_iff c d).1 x, (same_text_iff cs ds).1 y) refl,
)

pub same_text-false : (a b : List ℕ) → (same_text a b ≡ false) ↔ (a ≢ b)
same_text-false a b = elim (Bool-cases (same_text a b)) [
  | inl h ↦ (λ e. cc, λ n. absurd (n ((same_text_iff a b).0 h)))
  | inr h ↦ (λ e q. cc (h, (same_text_iff a b).1 q), λ n. h)
]

pub or-false_iff : (a b : Bool) → ((a || b) ≡ false) ↔ ((a ≡ false) × (b ≡ false))
or-false_iff a b = ground arith

-- All texts of a list are different.
abbrev pub Unique : List (List ℕ) → Type 0
Unique [] = Unit
Unique (n ∷ ns) = All (λ m. n ≢ m) ns × Unique ns

pub contains_name_iff :
    (n : List ℕ) (ns : List (List ℕ)) → (contains_name n ns ≡ false) ↔ All (λ m. m ≢ n) ns
contains_name_iff n [] = (λ e. tt, λ h. refl)
contains_name_iff n (m ∷ ms) =
    let (f, g) = or-false_iff (same_text m n) (contains_name n ms) in
    let (f₁, g₁) = same_text-false m n in
    let (f₂, g₂) = contains_name_iff n ms in
    (λ e. (f₁ (f e).0, f₂ (f e).1), λ h. g (g₁ h.0, g₂ h.1))

-- None of the texts is among those that have been seen.
abbrev pub Apart : List (List ℕ) → List (List ℕ) → Type 0
Apart seen ms = All (λ m. All (λ n. n ≢ m) seen) ms

pub everything-Apart : (ms : List (List ℕ)) → Apart [] ms
everything-Apart [] = tt
everything-Apart (m ∷ ms) = (tt, everything-Apart ms)

pub Apart-cons :
    (x : List ℕ) (seen ms : List (List ℕ))
    → Apart (x ∷ seen) ms ↔ (All (λ m. x ≢ m) ms × Apart seen ms)
Apart-cons x seen [] = (λ h. (tt, tt), λ h. tt)
Apart-cons x seen (m ∷ ms) =
    let (f, g) = Apart-cons x seen ms in
    (λ (h, hs). let (a, b) = f hs in ((h.0, a), (h.1, b)), λ h. ((h.0.0, h.1.0), g (h.0.1, h.1.1)))
