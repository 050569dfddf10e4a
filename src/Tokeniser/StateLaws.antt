-- ===== src/Tokeniser/StateLaws.antt =====
-- The operations of libelement/src/token_internal.cpp on the fields.
use Prim.Native.Nat.add
use element.Prelude.{
  ℕ, ◌+◌, ◌≡◌, refl, ap, true, false, List, [], ◌∷◌, ◌++◌, arith, length, ◌≢◌, All, All-append,
}
use element.Prelude.Int.{ℤ}
use element.Tokeniser.Chars.{is_eol, is_space}
use element.Tokeniser.Grammar.{Spells}
use element.Tokeniser.Input.{Input}
use element.Tokeniser.Reading.{
  line_starts, last_or, line_starts-same, not_eol, IsAt, IsComment, Reads, blank, remark, token,
}
use element.Tokeniser.Run.{end_comment}
use element.Tokeniser.Segment.{Segment, codes, width, width-append, Each}
use element.Tokeniser.SpellsLaws.{Spells-IsOneLine, IsComment-IsOneLine}
use element.Tokeniser.State.{
  TokenType, no_token, eof, Tokeniser, begin_token, end_token, put_token, reset_token, save_token,
}

-- The fields that say where the tokeniser is.
pub record Place : Type 0 where
  pub pos : ℕ
  pub line : ℕ
  pub line_start_position : ℕ
  pub character : ℕ
  pub line_number_to_line_pos : List ℕ

abbrev pub place : Tokeniser → Place
place s = record {
  pos = s.pos;
  line = s.line;
  line_start_position = s.line_start_position;
  character = s.character;
  line_number_to_line_pos = s.line_number_to_line_pos;
}

-- `pos`, the line table and the line's number and start are those of the segment; the column is
-- counted from the start of the line.
pub record IsPlaced (s : Place) (d : Segment) : Type 0 where
  pub pos : s.pos ≡ width d
  pub table : s.line_number_to_line_pos ≡ 0 ∷ line_starts 0 d
  pub line : s.line ≡ 1 + length (line_starts 0 d)
  pub line_start : s.line_start_position ≡ last_or 0 (line_starts 0 d)
  pub column : s.line_start_position + s.character ≡ s.pos + 1

-- No token has been begun: what the assertions of the source ask for.
pub record IsIdle (s : Tokeniser) : Type 0 where
  pub type : s.cur_token.type ≡ no_token
  pub tok_len : s.cur_token.tok_len ≡ ℤ.pos 0

-- The invariant of the loop: the tokens are those of the segment, and the end of the file is none of them.
pub record Holds (source : Input) (s : Tokeniser) (d : Segment) : Type 0 where
  pub placed : IsPlaced (place s) d
  pub idle : IsIdle s
  pub reads : Reads d s.tokens
  pub unended : All (λ t. t.type ≢ eof) s.tokens
  pub input : s.input ≡ source

-- A move of `n` bytes within the line.
abbrev pub moved : ℕ → Place → Place
moved n s = record s { pos = s.pos + n; character = s.character + n }

pub moved-IsPlaced :
    (s : Place) (d e : Segment)
    → IsPlaced s d
    → Each not_eol (codes e)
    → IsPlaced (moved (width e) s) (d ++ e)
moved-IsPlaced s d e h g = record {
  pos = omega (arith, h.pos, width-append d e);
  table = rw (line_starts-same d e g) h.table;
  line = rw (line_starts-same d e g) h.line;
  line_start = rw (line_starts-same d e g) h.line_start;
  column = omega (arith, h.column);
}

pub begin_token-IsAt :
    (s : Tokeniser) (d : Segment) (t : TokenType) (n : ℕ)
    → IsPlaced (place s) d
    → IsAt d n (record (begin_token t s).cur_token { tok_len = ℤ.pos n })
begin_token-IsAt s d t n h = record {
  tok_pos = ap ℤ.pos h.pos;
  tok_len = refl;
  line = ap ℤ.pos h.line;
  line_start_position = ap ℤ.pos h.line_start;
  character = ap ℤ.pos (omega (arith, h.column, h.line_start, h.pos));
}

-- The token `t` of the code points `g`, behind what has been read.
pub next_Reads :
    (s : Tokeniser) (d g : Segment) (t : TokenType)
    → Reads d s.tokens
    → IsPlaced (place s) d
    → Spells t (codes g)
    → Reads
        (d ++ g)
        (s.tokens ++ record (begin_token t s).cur_token { tok_len = ℤ.pos (width g) } ∷ [])
next_Reads s d g t r h p = token g _ r p (begin_token-IsAt s d t (width g) h) refl refl

-- A token that is added extends what has been read by its text.
pub put_token-Holds :
    {source : Input} (t : TokenType) (s : Tokeniser) (d g : Segment)
    → Holds source s d
    → Spells t (codes g)
    → t ≢ eof
    → Holds source (put_token t (width g) s) (d ++ g)
unfolding put_token reset_token save_token
put_token-Holds no_token s d g h p n = absurd p
put_token-Holds t s d g h p n = record {
  placed = moved-IsPlaced (place s) d g h.placed (Spells-IsOneLine t (codes g) p);
  idle = record { type = refl; tok_len = refl };
  reads = next_Reads s d g t h.reads h.placed p;
  unended = All-append (λ u. u.type ≢ eof) s.tokens _ h.unended (n, tt);
  input = h.input;
}

-- A token of `n` bytes that is begun and ended is one that is added.
end_token-begin_token :
    (t : TokenType) (n : ℕ) (s : Tokeniser)
    → IsIdle s
    → end_token n (begin_token t s) ≡ put_token t n s
unfolding put_token
end_token-begin_token t n s i =
    ap
      (λ z. reset_token (record (begin_token t s) {
        pos = s.pos + n;
        character = s.character + n;
        cur_token = record (begin_token t s).cur_token { tok_len = z };
      }))
      (rw i.tok_len (ap ℤ.pos (omega arith)))

pub end_token-Holds :
    {source : Input} (t : TokenType) (n : ℕ) (s : Tokeniser) (d g : Segment)
    → Holds source s d
    → Spells t (codes g)
    → t ≢ eof
    → n ≡ 0 + width g
    → Holds source (end_token n (begin_token t s)) (d ++ g)
end_token-Holds t n s d g h p f e =
    rw (end_token-begin_token t n s h.idle, e, add.zero) (put_token-Holds t s d g h p f)

pub end_comment-Holds :
    {source : Input} (n : ℕ) (s : Tokeniser) (d g : Segment)
    → Holds source s d
    → IsComment (codes g)
    → n ≡ 0 + width g
    → Holds source (end_comment s n) (d ++ g)
end_comment-Holds n s d g h p e =
    rw (e, add.zero)
      (record {
        placed = moved-IsPlaced (place s) d g h.placed (IsComment-IsOneLine (codes g) p);
        idle = record { type = h.idle.type; tok_len = h.idle.tok_len };
        reads = remark g h.reads p refl;
        unended = h.unended;
        input = h.input;
      })

pub blank-Holds :
    {source : Input} (s : Tokeniser) (d : Segment) (c : ℕ) (bs : List ℕ)
    → Holds source s d
    → is_space c ≡ true
    → is_eol c ≡ false
    → length bs ≡ 1
    → Holds source (record s { pos = s.pos + 1; character = s.character + 1 }) (d ++ (c, bs) ∷ [])
blank-Holds s d c bs h p q e = record {
  placed =
      let w : length bs + 0 ≡ 1 = omega arith in
      rw w at (moved-IsPlaced (place s) d ((c, bs) ∷ []) h.placed (rw q, tt));
  idle = record { type = h.idle.type; tok_len = h.idle.tok_len };
  reads = blank c bs h.reads p refl;
  unended = h.unended;
  input = h.input;
}
