-- ===== src/Parser/Ends.antt =====
-- How a method of libelement/src/ast/parser_internal.cpp may end on a stream of tokens, and the
-- rules for its parts.
use element.Prelude.{
  ℕ, suc, List, [], ◌∷◌, Option, none, some, Bool, true, false, ◌≡◌, refl, ◌≢◌, ◌<◌, ◌≤◌, arith,
  length, get_elem?, if◌then◌else◌,
}
use element.Result.{ElementResult, ok}
use element.Tokeniser.State.{TokenType, number, eof, Token, Tokeniser, text_of}
use element.Parser.Outcome.{Parser, Outcome, parsed, failed, thrown, P, bind, failing_with}
use element.Parser.Steps.{same_token, current, advance, advance_ok}
use element.Parser.Stream.{
  Stands, current-Stands, advance_result-more, advance_result-last, moved_to-Stands,
  same_token_sound, same_token_complete, only_eof,
}

module _ (tk : Tokeniser) {V : Type 0} (stof : List ℕ → Option V) where
  -- It has parsed, fewer than `n` tokens are left after the current one, and `Q` holds of its value and of these; or it has failed
  -- with an error; or the text of a number was too much for `std::stof`. There is no fault, and the
  -- fuel was enough.
  pub data Ends {A : Type 0} (Q : A → List Token → Type 0) (n : ℕ) : Outcome A → Type 0 where
    ended :
        {a : A} {s : Parser} {t : Token} {ts : List Token}
        → Stands tk s (t ∷ ts)
        → length ts < n
        → Q a (t ∷ ts)
        → Ends Q n (parsed a s)
    refused : {r : ElementResult} → r ≢ ok → Ends Q n (failed r)
    threw :
        (k : ℕ) {t : Token}
        → get_elem? tk.tokens k ≡ some t
        → t.type ≡ number
        → stof (text_of tk t) ≡ none
        → Ends Q n thrown

  module _ {A : Type 0} {Q : A → List Token → Type 0} {n : ℕ} where
    pub Ends-bind :
        {B : Type 0} {R : B → List Token → Type 0} {m : ℕ} {o : Outcome A} {f : A → P B}
        → Ends Q n o
        → ((a : A) (s : Parser) (t : Token) (ts : List Token)
            → Stands tk s (t ∷ ts)
            → length ts < n
            → Q a (t ∷ ts)
            → Ends R m (f a s))
        → Ends R m (bind o f)
    Ends-bind (ended {a} {s} {t} {ts} h l q) k = k a s t ts h l q
    Ends-bind (refused e) k = refused e
    Ends-bind (threw i g y e) k = threw i g y e

    pub Ends-failing_with :
        {r : ElementResult} {o : Outcome A} → r ≢ ok → Ends Q n o → Ends Q n (failing_with r o)
    Ends-failing_with e (ended h l q) = ended h l q
    Ends-failing_with e (refused e') = refused e
    Ends-failing_with e (threw k g y e') = threw k g y e'

    pub Ends-if :
        (c : Bool) (x y : P A) {s : Parser}
        → (c ≡ true → Ends Q n (x s))
        → (c ≡ false → Ends Q n (y s))
        → Ends Q n ((if c then x else y) s)
    Ends-if true x y hx hy = hx refl
    Ends-if false x y hx hy = hy refl

    -- A test of a token's type.
    pub Ends-test :
        (a b : TokenType) (x y : P A) {s : Parser}
        → (a ≡ b → Ends Q n (x s))
        → (a ≢ b → Ends Q n (y s))
        → Ends Q n ((if same_token a b then x else y) s)
    Ends-test a b x y hx hy =
        Ends-if (same_token a b) x y (λ e. hx (same_token_sound a b e))
          (λ e. hy (same_token_complete a b e))

    pub Ends-current :
        {s : Parser} {t : Token} {ts : List Token} (f : Token → P A)
        → Stands tk s (t ∷ ts)
        → Ends Q n (f t s)
        → Ends Q n (bind (current tk s) f)
    Ends-current f h e = rw (current-Stands tk h) e

    -- A comma is never the last token.
    pub Ends-advance_ok :
        {s : Parser} {t : Token} {ts : List Token} (f : Bool → P A)
        → Stands tk s (t ∷ ts)
        → t.type ≢ eof
        → ((s' : Parser) (u : Token) (us : List Token)
            → Stands tk s' (u ∷ us)
            → length us < length ts
            → ts ≡ u ∷ us
            → Ends Q n (f true s'))
        → Ends Q n (bind (advance_ok tk s) f)
    unfolding advance_ok
    Ends-advance_ok {s} {t} {ts = []} f h e k = absurd (e (only_eof h.stream))
    Ends-advance_ok {s} {t} {ts = u ∷ us} f h e k =
        rw (advance_result-more tk h) (k _ u us (moved_to-Stands tk h) (omega arith) refl)

  -- Over a token that is not the last; at the last, `advance` fails.
  pub advance-Ends :
      {s : Parser} {t : Token} {ts : List Token}
      → Stands tk s (t ∷ ts)
      → Ends (λ _ rest. ts ≡ rest) (length ts) (advance tk s)
  unfolding advance
  advance-Ends {s} {t} {ts = []} h = rw (advance_result-last tk h) (refused (λ e. cc))
  advance-Ends {s} {t} {ts = u ∷ us} h =
      rw (advance_result-more tk h) (ended (moved_to-Stands tk h) (omega arith) refl)

  -- An end that promises more promises less.
  pub Ends-weaken :
      {A : Type 0} {Q R : A → List Token → Type 0} {n m : ℕ} {o : Outcome A}
      → n ≤ m
      → ((a : A) (ts : List Token) → Q a ts → R a ts)
      → Ends Q n o
      → Ends R m o
  Ends-weaken {n = n} {m} l w (ended {a} {s} {t} {ts} h b q) =
      ended h (omega arith) (w a (t ∷ ts) q)
  Ends-weaken l w (refused e) = refused e
  Ends-weaken l w (threw k g y e) = threw k g y e

  -- A method that reads a phrase and consumes a token at least, where fewer than `n` tokens follow the first.
  abbrev pub Reads : {A : Type 0} → (List Token → List Token → A → Type 0) → ℕ → P A → Type 0
  Reads Q n m =
      (s : Parser) (t : Token) (ts : List Token)
      → Stands tk s (t ∷ ts)
      → length ts < n
      → Ends (λ a rest. Q (t ∷ ts) rest a) (length ts) (m s)

  -- One that may consume none.
  abbrev pub ReadsAny : {A : Type 0} → (List Token → List Token → A → Type 0) → ℕ → P A → Type 0
  ReadsAny Q n m =
      (s : Parser) (t : Token) (ts : List Token)
      → Stands tk s (t ∷ ts)
      → length ts < n
      → Ends (λ a rest. Q (t ∷ ts) rest a) (suc (length ts)) (m s)
