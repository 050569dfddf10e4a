-- ===== src/Tokeniser/Identifier.antt =====
-- `tokenise_identifier` (libelement/src/token_internal.cpp).
use element.Prelude.{
  ℕ, ◌+◌, ◌≡◌, refl, ap, Bool, true, false, inl, inr, List, [], ◌∷◌, arith, length, Bool-cases,
  ◌==◌,
}
use element.Tokeniser.Chars.{isid_alpha}
use element.Tokeniser.Grammar.{IsIdentifier, name}
use element.Tokeniser.Input.{Input, finish, glyph, scanned, skip_while}
use element.Tokeniser.Run.{next, is_id, scan_identifier, tokenise_identifier}
use element.Tokeniser.RunLaws.{IsIdentifier-ne-nil}
use element.Tokeniser.ScanLaws.{is_id_of_isid_alpha}
use element.Tokeniser.Segment.{Segment, prepend, codes, width, Each}
use element.Tokeniser.State.{no_token, is_unset, identifier, Tokeniser, begin_token, end_token}

-- The source ends here, or goes on with a code point that fails the test.
pub data EndsBefore (p : ℕ → Bool) : Input → Type 0 where
  at_finish : EndsBefore p finish
  at_other : {c : ℕ} {bs : List ℕ} {it : Input} → p c ≡ false → EndsBefore p (glyph c bs it)

pub skip_while-prepend :
    (p : ℕ → Bool) (len len' : ℕ) (d : Segment) (rest : Input)
    → Each p (codes d)
    → EndsBefore p rest
    → len' ≡ len + width d
    → skip_while p len (prepend d rest) ≡ scanned len' rest
unfolding skip_while
skip_while-prepend p len len' [] finish h at_finish e = ap (λ n. scanned n finish) (omega arith)
skip_while-prepend p len len' [] _ h (at_other {c} {bs} {it} q) e =
    rw q (ap (λ n. scanned n (glyph c bs it)) (omega arith))
skip_while-prepend p len len' ((c, bs) ∷ d) rest (h, hs) b e =
    rw h (skip_while-prepend p (len + length bs) len' d rest hs b (omega arith))

scan_identifier-prepend :
    (c : ℕ) (bs : List ℕ) (d : Segment) (rest : Input)
    → isid_alpha c ≡ true
    → Each is_id (codes d)
    → EndsBefore is_id rest
    → scan_identifier (glyph c bs (prepend d rest)) ≡ scanned (length bs + width d) rest
unfolding scan_identifier
scan_identifier-prepend c bs d rest i h b = elim (Bool-cases (c == b'_')) [
  | inl e ↦ rw e (skip_while-prepend is_id (length bs) _ d rest h b refl)
  | inr e ↦
      rw e (
        skip_while-prepend is_id 0 _ ((c, bs) ∷ d) rest (is_id_of_isid_alpha c i, h) b
          (omega arith))
]

-- Where no token has been begun, an identifier of the token grammar that stands before something else, which is the
-- end of the source or a code point that no identifier goes on with, is taken whole, and the loop goes on
-- behind it.
pub tokenise_identifier-prepend :
    (s : Tokeniser) (d : Segment) (rest : Input)
    → s.cur_token.type ≡ no_token
    → IsIdentifier (codes d)
    → EndsBefore is_id rest
    → tokenise_identifier s (prepend d rest)
      ≡ next (end_token (width d) (begin_token identifier s)) rest
unfolding tokenise_identifier
tokenise_identifier-prepend s [] rest z i b = absurd (IsIdentifier-ne-nil i refl)
tokenise_identifier-prepend s ((c, bs) ∷ d) rest z (name i h) b =
    let unset : is_unset s.cur_token.type ≡ true = rw z refl in
    rw (unset, i, scan_identifier-prepend c bs d rest i h b)
