-- ===== src/Tokeniser/Clear.antt =====
-- `element_tokeniser_ctx::clear` (libelement/src/token_internal.cpp): when the context is as new.
use mathlib.Core.List.{concat-ne-nil}
use element.Prelude.{◌≡◌, ◌↔◌, refl, [], ◌∷◌, none}
use element.Tokeniser.Input.{finish}
use element.Tokeniser.State.{
  TokenType, no_token, Tokeniser, create, clear, clear_token, reset_token, save_token,
}
use element.Tokeniser.StartLaws.{IsFresh}

pub create-IsFresh : IsFresh create
create-IsFresh = record { type = refl; tokens = refl; line_start_position = refl; table = refl }

-- The reset of a context whose token list is empty, by the type of its current token.
reset-IsFresh_iff :
    (t : TokenType) (s : Tokeniser)
    → s.tokens ≡ []
    → s.line_start_position ≡ 0
    → IsFresh (record (save_token t s) {
      cur_token = clear_token (save_token t s).raw_source_name (save_token t s).cur_token;
    })
      ↔ ((t ≡ no_token) × (s.line_number_to_line_pos ≡ 0 ∷ []))
unfolding save_token
reset-IsFresh_iff no_token s e p = (
  λ f. (refl, f.table),
  λ h. record { type = refl; tokens = e; line_start_position = p; table = h.1 },
)
reset-IsFresh_iff _ s e p = (λ f. absurd (concat-ne-nil s.cur_token s.tokens f.tokens), λ h. cc)

-- `clear` empties the list of tokens before it resets the current token, and keeps the line table: the
-- context is fresh afterwards exactly if no token was pending, as one is when a run has failed inside a
-- number, and the table held no line but the first.
pub clear-IsFresh_iff :
    (s : Tokeniser)
    → IsFresh (clear s) ↔ ((s.cur_token.type ≡ no_token) × (s.line_number_to_line_pos ≡ 0 ∷ []))
unfolding clear reset_token save_token
clear-IsFresh_iff s =
    reset-IsFresh_iff s.cur_token.type
      (record s {
        tokens = [];
        raw_source_name = none;
        input = finish;
        line = 1;
        line_start_position = 0;
        character = 1;
        pos = 0;
      })
      refl refl
