-- ===== src/Tokeniser/StartLaws.antt =====
-- The newline and the start of a run, in libelement/src/token_internal.cpp.
use Prim.Native.Nat.add
use element.Prelude.{
  ℕ, ◌+◌, ◌≡◌, refl, ap, ◌∙◌, true, List, [], ◌∷◌, ◌++◌, arith, length, length-append,
}
use element.Tokeniser.Chars.{is_eol, is_space}
use element.Tokeniser.Input.{Input}
use element.Tokeniser.Reading.{line_starts, last_or-concat, line_starts-append, nothing, blank}
use element.Tokeniser.Run.{newline, start}
use element.Tokeniser.Segment.{Segment, width-append}
use element.Tokeniser.State.{no_token, SourceName, Tokeniser, reset_token, save_token, clear_token}
use element.Tokeniser.StateLaws.{Place, place, IsPlaced, Holds}

-- Where no token has been begun none is saved.
reset_token-idle :
    (s : Tokeniser)
    → s.cur_token.type ≡ no_token
    → reset_token s ≡ record s { cur_token = clear_token s.raw_source_name s.cur_token }
unfolding reset_token save_token
reset_token-idle s e =
    ap
      (λ t.
        let s' = save_token t s in
        record s' { cur_token = clear_token s'.raw_source_name s'.cur_token })
      e

newline-IsPlaced :
    (s : Place) (d : Segment) (c : ℕ) (bs : List ℕ)
    → IsPlaced s d
    → is_eol c ≡ true
    → length bs ≡ 1
    → IsPlaced
        (record {
          pos = s.pos + 1;
          line = s.line + 1;
          line_start_position = s.pos + 1;
          character = 1;
          line_number_to_line_pos = s.line_number_to_line_pos ++ (s.pos + 1) ∷ [];
        })
        (d ++ (c, bs) ∷ [])
newline-IsPlaced s d c bs h q e =
    let starts : line_starts 0 (d ++ (c, bs) ∷ []) ≡ line_starts 0 d ++ (s.pos + 1) ∷ [] =
      line_starts-append 0 d ((c, bs) ∷ []) ∙ rw (q, e, add.zero, h.pos) in
    record {
      pos = omega (arith, h.pos, width-append d ((c, bs) ∷ []));
      table = rw (starts, h.table);
      line =
          rw (starts, length-append (line_starts 0 d) ((s.pos + 1) ∷ [])) (omega (arith, h.line));
      line_start = rw (starts, last_or-concat 0 (s.pos + 1) (line_starts 0 d));
      column = refl;
    }

pub newline-Holds :
    {source : Input} (s : Tokeniser) (d : Segment) (c : ℕ) (bs : List ℕ)
    → Holds source s d
    → is_space c ≡ true
    → is_eol c ≡ true
    → length bs ≡ 1
    → Holds source (newline s) (d ++ (c, bs) ∷ [])
unfolding newline
newline-Holds s d c bs h p q e =
    rw
      (reset_token-idle
        (record s {
          line = s.line + 1;
          character = 1;
          pos = s.pos + 1;
          line_start_position = s.pos + 1;
          line_number_to_line_pos = s.line_number_to_line_pos ++ (s.pos + 1) ∷ [];
        })
        h.idle.type)
      (record {
        placed = newline-IsPlaced (place s) d c bs h.placed q e;
        idle = record { type = refl; tok_len = refl };
        reads = blank c bs h.reads p refl;
        unended = h.unended;
        input = h.input;
      })

-- A context that has read nothing: a new one, or one that has been cleared and knows no lines.
pub record IsFresh (s : Tokeniser) : Type 0 where
  pub type : s.cur_token.type ≡ no_token
  pub tokens : s.tokens ≡ []
  pub line_start_position : s.line_start_position ≡ 0
  pub table : s.line_number_to_line_pos ≡ 0 ∷ []

pub start-Holds :
    (s : Tokeniser) (source : Input) (name : SourceName)
    → IsFresh s
    → Holds source (start s source name) []
unfolding start
start-Holds s source name f =
    rw
      (reset_token-idle
        (record s { raw_source_name = name; input = source; pos = 0; line = 1; character = 1 })
        f.type)
      (record {
        placed = record {
          pos = refl;
          table = f.table;
          line = refl;
          line_start = f.line_start_position;
          column = omega (arith, f.line_start_position);
        };
        idle = record { type = refl; tok_len = refl };
        reads = rw f.tokens nothing;
        unended = rw f.tokens tt;
        input = refl;
      })
