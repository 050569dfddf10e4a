-- ===== src/Parser/Sources.antt =====
-- From `run` (libelement/src/token_internal.cpp) to `ast_build`
-- (libelement/src/ast/parser_internal.cpp).
use mathlib.Core.Path.{subst}
use element.Prelude.{
  ℕ, none, inl, inr, ◌∙◌, List, [], ◌∷◌, ◌++◌, Option, some, ◌≡◌, sym, ap, ◌≢◌, All, All-append,
}
use element.Result.{ElementResult, ok, api_unknown}
use element.Tokeniser.Grammar.{Spells}
use element.Tokeniser.Input.{Input, IsUtf8}
use element.Tokeniser.Reading.{Reads, nothing, blank, remark, token}
use element.Tokeniser.Run.{run}
use element.Tokeniser.Correct.{Outcome, complete, partial, run-Outcome}
use element.Tokeniser.Segment.{Segment, codes, segment_bytes}
use element.Tokeniser.Texts.{run_texts}
use element.Tokeniser.StartLaws.{IsFresh}
use element.Tokeniser.State.{TokenType, no_token, eof, SourceName, Token, Tokeniser, text}
use element.Parser.Stream.{IsStream, HasTexts, last, more}

-- A token of the type that is skipped has no text.
Spells-ne-no_token : (t : TokenType) (cs : List ℕ) → Spells t cs → t ≢ no_token
Spells-ne-no_token no_token cs h e = h
Spells-ne-no_token _ cs h e = cc

Reads-kept : {d : Segment} {ts : List Token} → Reads d ts → All (λ t. t.type ≢ no_token) ts
Reads-kept nothing = tt
Reads-kept (blank c bs r h e) = Reads-kept r
Reads-kept (remark g r h e) = Reads-kept r
Reads-kept (token {ts = ts} g t r h a e l) = rw l (
    All-append (λ u. u.type ≢ no_token) ts (t ∷ []) (Reads-kept r)
      (Spells-ne-no_token t.type (codes g) h, tt))

IsStream-append :
    (ts : List Token) (t : Token)
    → All (λ u. u.type ≢ no_token) (ts ++ t ∷ [])
    → All (λ u. u.type ≢ eof) ts
    → t.type ≡ eof
    → IsStream (ts ++ t ∷ [])
IsStream-append [] t k n e = last e
IsStream-append (u ∷ ts) t k n e = more k.0 n.0 (IsStream-append ts t k.1 n.1 e)

Outcome-IsStream :
    {source : Input} {s : Tokeniser} {r : ElementResult}
    → Outcome source s r
    → r ≡ ok
    → IsStream s.tokens
Outcome-IsStream (complete d ts t e p r l y n i) f =
    rw l (IsStream-append ts t (rw l at (Reads-kept r)) n y)
Outcome-IsStream (partial d rest n p r i) f = absurd (n f)

-- What is in the result of a run that ends.
abbrev first : Option (ElementResult × Tokeniser) → ElementResult
first none = api_unknown
first (some (r, s)) = r

abbrev second : Tokeniser → Option (ElementResult × Tokeniser) → Tokeniser
second d none = d
second d (some (r, s)) = s

-- The tokens of a run that has succeeded, over a UTF-8 source in a fresh context, end with the end of the
-- file, which no other token is, and none of them is to be skipped.
pub run-IsStream :
    (s s' : Tokeniser) (source : Input) (name : SourceName)
    → IsFresh s
    → IsUtf8 source
    → run s source name ≡ some (ok, s')
    → IsStream s'.tokens
run-IsStream s s' source name f u e = elim (run-Outcome s source name f u) [
  | inl (r, s'', e', o) ↦
      subst (λ x. IsStream (Tokeniser.tokens x)) (ap (second s) (sym e' ∙ e))
        (Outcome-IsStream o (ap first (sym e' ∙ e)))
  | inr (e', o) ↦ let bad : none ≡ some (ok, s') = sym e' ∙ e in cc
]

forget_texts :
    (s : Tokeniser) (ts : List Token)
    → All (λ t. (g : Segment) × (text s t ≡ some (segment_bytes g)) × Spells t.type (codes g)) ts
    → All (λ t. (x : List ℕ) × (text s t ≡ some x)) ts
forget_texts s [] h = tt
forget_texts s (t ∷ ts) ((g, e, p), h) = ((segment_bytes g, e), forget_texts s ts h)

-- `text` throws at no token of a run that has succeeded, over a UTF-8 source in a fresh context.
pub run-HasTexts :
    (s s' : Tokeniser) (source : Input) (name : SourceName)
    → IsFresh s
    → IsUtf8 source
    → run s source name ≡ some (ok, s')
    → HasTexts s'
run-HasTexts s s' source name f u e = elim (run_texts s source name f u) [
  | inl (r, s'', e', texts, ordered, inside) ↦
      subst HasTexts (ap (second s) (sym e' ∙ e)) (forget_texts s'' s''.tokens texts)
  | inr (e', o) ↦ let bad : none ≡ some (ok, s') = sym e' ∙ e in cc
]
