-- ===== src/Tokeniser/Texts.antt =====
-- `element_tokeniser_ctx::text` (libelement/src/token_internal.cpp) on the tokens of a run, and the
-- order of the tokens.
use element.Prelude.{
  ℕ, ltb, false, none, ◌⊎◌, inl, inr, ◌+◌, ◌≤◌, ◌≡◌, refl, ap, List, [], ◌∷◌, ◌++◌, some, arith,
  length, length-append, take-append, drop-append, All, All-append,
}
use element.Prelude.Int.{ℤ, to_ℕ}
use element.Result.{ElementResult}
use element.Tokeniser.Correct.{Outcome, Overruns, complete, partial, run-Outcome}
use element.Tokeniser.Grammar.{Spells}
use element.Tokeniser.Input.{Input, finish, bytes, IsUtf8}
use element.Tokeniser.Reading.{IsAt, Reads, nothing, blank, remark, token}
use element.Tokeniser.Run.{run}
use element.Tokeniser.Segment.{
  Segment, prepend, codes, segment_bytes, width, width-append, prepend-append, bytes-prepend,
  length-segment_bytes,
}
use element.Tokeniser.State.{SourceName, Token, Tokeniser, text, substr}
use element.Tokeniser.StartLaws.{IsFresh}

-- The bytes of the source where the token stands are those of a text that its type can have.
abbrev pub HasText : Input → Token → Type 0
HasText source t =
    (g : Segment) × (substr t.tok_pos t.tok_len (bytes source) ≡ some (segment_bytes g))
    × Spells t.type (codes g)

-- A text behind and before others.
substr-append :
    (xs ys zs : List ℕ)
    → substr (ℤ.pos (length xs)) (ℤ.pos (length ys)) (xs ++ (ys ++ zs)) ≡ some ys
substr-append xs ys zs =
    let inside : ltb (length (xs ++ (ys ++ zs))) (length xs) ≡ false =
      ground (arith, length-append xs (ys ++ zs)) in
    rw inside (rw (drop-append, take-append))

HasText-at :
    (d g : Segment) (rest : Input) (t : Token)
    → IsAt d (width g) t
    → Spells t.type (codes g)
    → HasText (prepend d (prepend g rest)) t
HasText-at d g rest t a p = (
  g,
  rw (a.tok_len, a.tok_pos, bytes-prepend, bytes-prepend)
      (rw (← length-segment_bytes d, ← length-segment_bytes g)
        (substr-append (segment_bytes d) (segment_bytes g) (bytes rest))),
  p,
)

Reads-HasText :
    {d : Segment} {ts : List Token} (rest : Input) → Reads d ts → All (HasText (prepend d rest)) ts
Reads-HasText rest nothing = tt
Reads-HasText rest (blank {d} c bs r h e) =
    rw (e, prepend-append d ((c, bs) ∷ []) rest) (Reads-HasText (prepend ((c, bs) ∷ []) rest) r)
Reads-HasText rest (remark {d} g r h e) =
    rw (e, prepend-append d g rest) (Reads-HasText (prepend g rest) r)
Reads-HasText rest (token {d} {ts} g t r h a e l) =
    rw (e, prepend-append d g rest, l)
      (All-append (HasText (prepend d (prepend g rest))) ts (t ∷ [])
        (Reads-HasText (prepend g rest) r) (HasText-at d g rest t a h, tt))

abbrev pub end_of : Token → ℕ
end_of t = to_ℕ t.tok_pos + to_ℕ t.tok_len

-- From the position `p` on, each token begins where the one before has ended, or behind that.
abbrev pub IsOrdered : ℕ → List Token → Type 0
IsOrdered p [] = Unit
IsOrdered p (t ∷ ts) = (p ≤ to_ℕ t.tok_pos) × IsOrdered (end_of t) ts

abbrev pub last_end : ℕ → List Token → ℕ
last_end p [] = p
last_end p (t ∷ ts) = last_end (end_of t) ts

IsOrdered-concat :
    (p : ℕ) (ts : List Token) (t : Token)
    → IsOrdered p ts
    → last_end p ts ≤ to_ℕ t.tok_pos
    → IsOrdered p (ts ++ t ∷ [])
IsOrdered-concat p [] t o h = (h, tt)
IsOrdered-concat p (u ∷ ts) t o h = (o.0, IsOrdered-concat (end_of u) ts t o.1 h)

last_end-concat : (p : ℕ) (ts : List Token) (t : Token) → last_end p (ts ++ t ∷ []) ≡ end_of t
last_end-concat p [] t = refl
last_end-concat p (u ∷ ts) t = last_end-concat (end_of u) ts t

Reads-IsOrdered :
    {d : Segment} {ts : List Token} → Reads d ts → IsOrdered 0 ts × (last_end 0 ts ≤ width d)
Reads-IsOrdered nothing = (tt, omega arith)
Reads-IsOrdered (blank {d} {e} c bs r h q) =
    let (o, l) = Reads-IsOrdered r in (o, omega (arith, ap width q, width-append d ((c, bs) ∷ [])))
Reads-IsOrdered (remark {d} g r h q) =
    let (o, l) = Reads-IsOrdered r in (o, omega (arith, ap width q, width-append d g))
Reads-IsOrdered (token {d} {ts} g t r h a q l) =
    let (o, b) = Reads-IsOrdered r in
    rw l (
      IsOrdered-concat 0 ts t o (omega (arith, ap to_ℕ a.tok_pos)),
      rw (last_end-concat 0 ts t)
          (omega (arith, ap to_ℕ a.tok_pos, ap to_ℕ a.tok_len, ap width q, width-append d g)),
    )

abbrev pub Texts : Input → List Token → Type 0
Texts source ts = All (HasText source) ts × IsOrdered 0 ts × (last_end 0 ts ≤ length (bytes source))

Reads-Texts :
    {d : Segment} {ts : List Token} (source rest : Input)
    → source ≡ prepend d rest
    → Reads d ts
    → Texts source ts
Reads-Texts {d} source rest p r =
    let (o, b) = Reads-IsOrdered r in
    rw p (
      Reads-HasText rest r,
      o,
      omega (
        arith,
        b,
        ap length (bytes-prepend d rest),
        length-append (segment_bytes d) (bytes rest),
        length-segment_bytes d,
      ),
    )

Outcome-Texts :
    {source : Input} {s : Tokeniser} {r : ElementResult}
    → Outcome source s r
    → Texts s.input s.tokens
Outcome-Texts (complete d ts t e p r l y n i) = rw i (Reads-Texts _ finish p r)
Outcome-Texts (partial d rest e p r i) = rw i (Reads-Texts _ rest p r)

-- What a caller finds behind a run over a UTF-8 source in a fresh context, which ends unless it comes to a character
-- that begins neither a token nor a comment nor white space, more than 1024 bytes behind the beginning of its line:
-- `text` throws at none of the tokens, and gives each a text that its type can have, and the tokens follow one
-- another without overlap, inside the source, also where the run has failed.
pub run_texts :
    (s : Tokeniser) (source : Input) (name : SourceName)
    → IsFresh s
    → IsUtf8 source
    → ((r : ElementResult) × (s' : Tokeniser) × (run s source name ≡ some (r, s'))
        × All
            (λ t. (g : Segment) × (text s' t ≡ some (segment_bytes g)) × Spells t.type (codes g))
            s'.tokens
        × IsOrdered 0 s'.tokens
        × (last_end 0 s'.tokens ≤ length (bytes s'.input)))
      ⊎ ((run s source name ≡ none) × Overruns source)
run_texts s source name f u = elim (run-Outcome s source name f u) [
  | inl (r, s', e, o) ↦
      let (texts, ordered, inside) = Outcome-Texts o in inl (r, s', e, texts, ordered, inside)
  | inr x ↦ inr x
]
