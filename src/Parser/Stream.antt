-- ===== src/Parser/Stream.antt =====
-- What the methods of libelement/src/ast/parser_internal.cpp read: tokens up to the end of the
-- source, and where the parser stands in them.
use element.Prelude.{
  ℕ, zero, suc, List, [], ◌∷◌, Option, none, some, true, false, ◌≡◌, refl, ap, ◌∙◌, ◌≢◌, ==_iff,
  Bool-cases, inl, inr, length, drop, get_elem?, ltb, ◌-◌, All,
}
use element.Result.{ok, accessed_token_past_end}
use element.Tokeniser.State.{
  TokenType, no_token, number, identifier, underscore, dot, bracketl, bracketr, colon, comma,
  bracel, bracer, equals, eof, Token, Tokeniser, text,
}
use element.Parser.Outcome.{Parser, parsed}
use element.Parser.Steps.{
  token_code, same_token, is_none_token, skip_none, advance_result, current, moved_to,
}

-- The tokens of a source: the last one is its end, and none is to be skipped.
pub data IsStream : List Token → Type 0 where
  last : {t : Token} → t.type ≡ eof → IsStream (t ∷ [])
  more :
      {t : Token} {ts : List Token}
      → t.type ≢ no_token
      → t.type ≢ eof
      → IsStream ts
      → IsStream (t ∷ ts)

-- `text` throws at none of the tokens.
abbrev pub HasTexts : Tokeniser → Type 0
HasTexts tk = All (λ t. (x : List ℕ) × (text tk t ≡ some x)) tk.tokens

-- The types, by their numbers.
abbrev token_types : List TokenType
token_types =
    no_token ∷ number ∷ identifier ∷ underscore ∷ dot ∷ bracketl ∷ bracketr ∷ colon ∷ comma ∷ bracel
    ∷ bracer ∷ equals ∷ eof ∷ []

token_types-token_code : (t : TokenType) → get_elem? token_types (token_code t) ≡ some t
token_types-token_code TokenType.no_token = refl
token_types-token_code _ = refl

pub same_token_sound : (a b : TokenType) → same_token a b ≡ true → a ≡ b
same_token_sound a b h =
    let e = (==_iff (token_code a) (token_code b)).0 h in
    cc (token_types-token_code a, token_types-token_code b, ap (get_elem? token_types) e)

pub same_token_refl : (a : TokenType) → same_token a a ≡ true
same_token_refl a = (==_iff (token_code a) (token_code a)).1 refl

pub same_token_complete : (a b : TokenType) → same_token a b ≡ false → a ≢ b
same_token_complete a b h e = cc (h, ap (λ x. same_token x b) e, same_token_refl b)

pub same_token_differs : (a b : TokenType) → a ≢ b → same_token a b ≡ false
same_token_differs a b h = elim (Bool-cases (same_token a b)) [
  | inl e ↦ absurd (h (same_token_sound a b e))
  | inr e ↦ e
]

abbrev pub head? : List Token → Option Token
head? [] = none
head? (t ∷ ts) = some t

abbrev pub tail_of : List Token → List Token
tail_of [] = []
tail_of (t ∷ ts) = ts

get_elem?-drop : (k : ℕ) (ts : List Token) → get_elem? ts k ≡ head? (drop k ts)
get_elem?-drop zero [] = refl
get_elem?-drop zero (t ∷ ts) = refl
get_elem?-drop (suc k) [] = refl
get_elem?-drop (suc k) (t ∷ ts) = get_elem?-drop k ts

drop-suc : (k : ℕ) (ts : List Token) → drop (suc k) ts ≡ tail_of (drop k ts)
drop-suc zero [] = refl
drop-suc zero (t ∷ ts) = refl
drop-suc (suc k) [] = refl
drop-suc (suc k) (t ∷ ts) = drop-suc k ts

tail-IsStream : {t u : Token} {ts : List Token} → IsStream (t ∷ u ∷ ts) → IsStream (u ∷ ts)
tail-IsStream (more n e h) = h

pub only_eof : {t : Token} → IsStream (t ∷ []) → t.type ≡ eof
only_eof (last e) = e
only_eof (more n e h) = elim h [ ]

module _ (tk : Tokeniser) where
  -- The parser's current token is the first of `ts`, which is what is left.
  pub record Stands (s : Parser) (ts : List Token) : Type 0 where
    pub points : s.current_token ≡ some s.token_index
    pub left : drop s.token_index tk.tokens ≡ ts
    pub stream : IsStream ts

  pub token-Stands :
      {s : Parser} {ts : List Token} → Stands s ts → get_elem? tk.tokens s.token_index ≡ head? ts
  token-Stands {s} {ts} h = get_elem?-drop s.token_index tk.tokens ∙ ap head? h.left

  pub current-Stands :
      {s : Parser} {t : Token} {ts : List Token} → Stands s (t ∷ ts) → current tk s ≡ parsed t s
  unfolding current
  current-Stands {s} h = rw (h.points, token-Stands h)

  next-Stands :
      {s : Parser} {t : Token} {ts : List Token}
      → Stands s (t ∷ ts)
      → get_elem? tk.tokens (suc s.token_index) ≡ head? ts
  next-Stands {s} h =
      get_elem?-drop (suc s.token_index) tk.tokens
      ∙ ap head? (drop-suc s.token_index tk.tokens ∙ ap tail_of h.left)

  skip_none-one :
      (n k : ℕ) → is_none_token (get_elem? tk.tokens (suc k)) ≡ false → skip_none tk n k ≡ suc k
  unfolding skip_none
  skip_none-one zero k h = refl
  skip_none-one (suc n) k h = elim (Bool-cases (ltb (suc k) (length tk.tokens - 1))) [
    | inl e ↦ rw (h, e)
    | inr e ↦ rw (h, e)
  ]

  is_none_token-stream : {ts : List Token} → IsStream ts → is_none_token (head? ts) ≡ false
  is_none_token-stream (last {t} e) = rw e
  is_none_token-stream (more {t} n e h) = same_token_differs t.type no_token n

  -- Over a token that is not the last one.
  pub advance_result-more :
      {s : Parser} {t u : Token} {ts : List Token}
      → Stands s (t ∷ u ∷ ts)
      → advance_result tk s ≡ (ok, moved_to tk s (suc s.token_index))
  unfolding advance_result
  advance_result-more {s} h = rw (
    skip_none-one (length tk.tokens) s.token_index
        (rw (next-Stands h) (is_none_token-stream (tail-IsStream h.stream))),
    next-Stands h,
  )

  pub advance_result-last :
      {s : Parser} {t : Token}
      → Stands s (t ∷ [])
      → advance_result tk s ≡ (accessed_token_past_end, moved_to tk s (suc s.token_index))
  unfolding advance_result
  advance_result-last {s} h =
      rw (skip_none-one (length tk.tokens) s.token_index (rw (next-Stands h)), next-Stands h)

  pub moved_to-Stands :
      {s : Parser} {t u : Token} {ts : List Token}
      → Stands s (t ∷ u ∷ ts)
      → Stands (moved_to tk s (suc s.token_index)) (u ∷ ts)
  moved_to-Stands {s} h = record {
    points = rw (next-Stands h);
    left = drop-suc s.token_index tk.tokens ∙ ap tail_of h.left;
    stream = tail-IsStream h.stream;
  }
