-- ===== src/Tokeniser/Correct.antt =====
-- `element_tokeniser_ctx::run` (libelement/src/token_internal.cpp) as a whole.
use mathlib.Core.List.{append-nil}
use element.Prelude.{
  ℕ, zero, suc, none, true, ◌⊎◌, inl, inr, ◌-◌, ◌<◌, ◌≡◌, ◌≢◌, refl, sym, ap, ◌∙◌, List, [], ◌∷◌,
  ◌++◌, Option, some, arith, length, All,
}
use element.Result.{ElementResult, ok, exception}
use element.Tokeniser.Input.{Input, finish, invalid, glyph, count, IsUtf8}
use element.Tokeniser.Reading.{Reads, line_start}
use element.Tokeniser.Run.{Step, resume, run_loop, start, run}
use element.Tokeniser.RunLaws.{Advances, IsStray, onward, halted, lost, broken, dispatch-Advances}
use element.Tokeniser.Segment.{
  Segment, width, prepend, prepend-append, count-prepend, prepend-IsUtf8,
}
use element.Tokeniser.State.{
  is_unset, eof, SourceName, Token, Tokeniser, put_token, reset_token, save_token,
}
use element.Tokeniser.StateLaws.{Holds, next_Reads}
use element.Tokeniser.StartLaws.{IsFresh, start-Holds}

-- On success the whole source has been read, and the last token is the end of the file and no other is; else some
-- first part of the source has.
pub data Outcome (source : Input) (s : Tokeniser) : ElementResult → Type 0 where
  complete :
      {r : ElementResult} (d : Segment) (ts : List Token) (t : Token)
      → r ≡ ok
      → source ≡ prepend d finish
      → Reads d s.tokens
      → s.tokens ≡ ts ++ t ∷ []
      → t.type ≡ eof
      → All (λ u. u.type ≢ eof) ts
      → s.input ≡ source
      → Outcome source s r
  partial :
      {r : ElementResult} (d : Segment) (rest : Input)
      → r ≢ ok
      → source ≡ prepend d rest
      → Reads d s.tokens
      → s.input ≡ source
      → Outcome source s r

-- Behind a first part of the source that has been read into tokens stands a character that begins neither a token
-- nor a comment nor white space, more than 1024 bytes behind the beginning of its line.
abbrev pub Overruns : Input → Type 0
Overruns source =
    (d : Segment) × (c : ℕ) × (bs : List ℕ) × (rest : Input) × (ts : List Token) × (source
      ≡ prepend d (glyph c bs rest))
    × IsStray c
    × (1024 < width d - line_start d)
    × Reads d ts

-- There is a result, or the copy of the line for the message runs over its end.
abbrev pub Finishes : Input → Option (ElementResult × Tokeniser) → Type 0
Finishes source o =
    ((r : ElementResult) × (s : Tokeniser) × (o ≡ some (r, s)) × Outcome source s r)
    ⊎ ((o ≡ none) × Overruns source)

at_end :
    {source : Input} (s : Tokeniser) (d : Segment)
    → Holds source s d
    → source ≡ prepend d finish
    → Outcome source (put_token eof 0 s) ok
unfolding put_token reset_token save_token
at_end s d h p =
    complete d s.tokens _ refl p (rw append-nil at (next_Reads s d [] eof h.reads h.placed refl))
      refl refl h.unended h.input

non_empty : (e : Segment) → e ≢ [] → 0 < length e
non_empty [] n = absurd (n refl)
non_empty (x ∷ e) n = omega arith

-- Behind one pass, if the rest of the loop does what it should on a shorter source.
resume-Finishes :
    {source it : Input} {st : Step} (rest : Tokeniser → Input → Option (ElementResult × Tokeniser))
    (d : Segment)
    → source ≡ prepend d it
    → Advances source it d st
    → IsUtf8 it
    → ((s : Tokeniser) (it' : Input) (d' : Segment)
        → Holds source s d'
        → IsUtf8 it'
        → source ≡ prepend d' it'
        → count it' < count it
        → Finishes source (rest s it'))
    → Finishes source (resume rest st)
unfolding resume
resume-Finishes {it} rest d p (onward {s} {it'} e n q h) u k =
    k s it' (d ++ e) h (prepend-IsUtf8 e it' (rw q at u))
      (p ∙ ap (prepend d) q ∙ sym (prepend-append d e it'))
      (omega (arith, ap count q, count-prepend e it', non_empty e n))
resume-Finishes {it} rest d p (halted {r} {s} n h i) u k =
    inl (r, s, refl, partial {r = r} d it n p h i)
resume-Finishes {it} rest d p (broken {s} h i) u k =
    inl (exception, s, refl, partial {r = exception} d it (λ z. cc) p h i)
resume-Finishes {it} rest d p (lost {c} {bs} {rest = more} {ts} q y l r) u k =
    inr (refl, (d, c, bs, more, ts, p ∙ ap (prepend d) q, y, l, r))

run_loop-Finishes :
    {source : Input} (fuel : ℕ) (s : Tokeniser) (it : Input) (d : Segment)
    → Holds source s d
    → IsUtf8 it
    → source ≡ prepend d it
    → count it < fuel
    → Finishes source (run_loop fuel s it)
unfolding run_loop
run_loop-Finishes zero s it d h u p l = elim l [ ]
run_loop-Finishes (suc fuel) s finish d h u p l =
    let unset : is_unset s.cur_token.type ≡ true = rw h.idle.type refl in
    rw unset (inl (ok, put_token eof 0 s, refl, at_end s d h p))
run_loop-Finishes (suc fuel) s (invalid bs) d h u p l =
    inl (exception, s, refl, partial {r = exception} d (invalid bs) (λ z. cc) p h.reads h.input)
run_loop-Finishes (suc fuel) s (glyph c bs it) d h u p l =
    resume-Finishes (run_loop fuel) d p (dispatch-Advances s d c bs it h u.2) u
      (λ s' it' d' h' u' p' l'. run_loop-Finishes fuel s' it' d' h' u' p' (omega arith))

-- A run over a UTF-8 source, in a fresh context, ends, and no assertion fails, unless it comes to a character that
-- begins neither a token nor a comment nor white space, more than 1024 bytes behind the beginning of its line, where
-- the code writes beyond a string. If it succeeds, the source is white space, comments and the texts of exactly the
-- tokens, in this order, each text in the grammar of its token's type and each token with the position, length, line
-- and column of its text; the last one is the end of the file, and no other is. If it fails, the same but for the end
-- of the file holds of a first part of the source.
pub run-Outcome :
    (s : Tokeniser) (source : Input) (name : SourceName)
    → IsFresh s
    → IsUtf8 source
    → Finishes source (run s source name)
unfolding run
run-Outcome s source name f u =
    run_loop-Finishes (suc (count source)) (start s source name) source []
      (start-Holds s source name f) u refl (omega arith)
