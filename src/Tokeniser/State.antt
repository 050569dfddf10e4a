-- ===== src/Tokeniser/State.antt =====
-- `element_token` (libelement/include/element/token.h), the fields of `element_tokeniser_ctx`, and
-- the operations on its current token (libelement/src/token_internal.cpp). Messages go to a logging
-- callback, which changes no field, and are left out.
use element.Prelude.{
  ℕ, ◌+◌, List, [], ◌∷◌, ◌++◌, Option, none, some, get_elem?, take, drop, Bool, true, false, ltb,
  length, if◌then◌else◌,
}
use element.Prelude.Int.{ℤ, negsuc, add_ℕ}
use element.Result.{ElementResult, ok, accessed_token_past_end}
use element.Tokeniser.Input.{Input, finish, bytes}

pub data TokenType : Type 0 where
  no_token number identifier underscore dot bracketl bracketr : TokenType
  colon comma bracel bracer equals eof : TokenType

-- A `const char*` that is only passed on.
abbrev pub SourceName : Type 0
SourceName = Option (List ℕ)

pub record Token : Type 0 where
  pub type : TokenType
  pub pre_pos : ℤ
  pub pre_len : ℤ
  pub tok_pos : ℤ
  pub tok_len : ℤ
  pub post_pos : ℤ
  pub post_len : ℤ
  pub line : ℤ
  pub line_start_position : ℤ
  pub character : ℤ
  pub source_name : SourceName

pub record Tokeniser : Type 0 where
  pub raw_source_name : SourceName
  pub input : Input
  pub pos : ℕ
  pub line : ℕ
  pub line_start_position : ℕ
  pub character : ℕ
  pub cur_token : Token
  pub tokens : List Token
  pub line_number_to_line_pos : List ℕ

abbrev pub minus_one : ℤ
minus_one = negsuc 0

-- The constructor. It leaves the fields for messages of the current token unset; 0 stands there.
abbrev pub create : Tokeniser
create = record {
  raw_source_name = none;
  input = finish;
  pos = 0;
  line = 1;
  line_start_position = 0;
  character = 1;
  cur_token = record {
    type = no_token;
    pre_pos = minus_one;
    pre_len = minus_one;
    tok_pos = minus_one;
    tok_len = minus_one;
    post_pos = minus_one;
    post_len = minus_one;
    line = ℤ.pos 0;
    line_start_position = ℤ.pos 0;
    character = ℤ.pos 0;
    source_name = none;
  };
  tokens = [];
  line_number_to_line_pos = 0 ∷ [];
}

-- The second half of `reset_token`: the current token is empty again.
abbrev pub clear_token : SourceName → Token → Token
clear_token name t = record t {
  type = no_token;
  tok_pos = minus_one;
  tok_len = ℤ.pos 0;
  post_pos = minus_one;
  post_len = ℤ.pos 0;
  line = minus_one;
  character = minus_one;
  line_start_position = minus_one;
  source_name = name;
}

-- What `reset_token` does first, by the type of the current token: one that has begun is saved.
unfoldable pub save_token : TokenType → Tokeniser → Tokeniser
save_token no_token s = s
save_token _ s = record s {
  tokens = s.tokens ++ s.cur_token ∷ [];
  cur_token = record s.cur_token { pre_pos = minus_one; pre_len = ℤ.pos 0 };
}

unfoldable pub reset_token : Tokeniser → Tokeniser
unfolding save_token
reset_token s =
    let s' = save_token s.cur_token.type s in
    record s' { cur_token = clear_token s'.raw_source_name s'.cur_token }

-- The assignments that open a token of type `t` at the current position.
abbrev pub begin_token : TokenType → Tokeniser → Tokeniser
begin_token t s = record s {
  cur_token = record s.cur_token {
    type = t;
    tok_pos = ℤ.pos s.pos;
    line = ℤ.pos s.line;
    line_start_position = ℤ.pos s.line_start_position;
    character = ℤ.pos s.character;
  };
}

-- The assignments that end a token of `len` bytes.
abbrev pub end_token : ℕ → Tokeniser → Tokeniser
end_token len s = reset_token (record s {
  pos = s.pos + len;
  character = s.character + len;
  cur_token = record s.cur_token { tok_len = add_ℕ s.cur_token.tok_len len };
})

-- The assignments of `add_token`.
unfoldable pub put_token : TokenType → ℕ → Tokeniser → Tokeniser
unfolding reset_token
put_token t n s =
    let s' = begin_token t s in
    reset_token (record s' {
      pos = s'.pos + n;
      character = s'.character + n;
      cur_token = record s'.cur_token { tok_len = ℤ.pos n };
    })

-- What `assert(cur_token.type == ELEMENT_TOK_NONE)` tests.
abbrev pub is_unset : TokenType → Bool
is_unset no_token = true
is_unset _ = false

-- `none` is the failed assertion.
abbrev pub add_token : TokenType → ℕ → Tokeniser → Option Tokeniser
add_token t n s = if is_unset s.cur_token.type then some (put_token t n s) else none

-- A length below 0 becomes a `size_t` beyond every string, and reaches to its end.
abbrev pub take_length : ℤ → List ℕ → List ℕ
take_length (ℤ.pos n) bs = take n bs
take_length (negsuc n) bs = bs

-- std::string::substr; `none` is `std::out_of_range`, also of a position below 0, which becomes a `size_t`
-- beyond the end.
abbrev pub substr : ℤ → ℤ → List ℕ → Option (List ℕ)
substr (negsuc p) len bs = none
substr (ℤ.pos p) len bs = if ltb (length bs) p then none else some (take_length len (drop p bs))

abbrev pub text : Tokeniser → Token → Option (List ℕ)
text s t = substr t.tok_pos t.tok_len (bytes s.input)

abbrev or_empty : Option (List ℕ) → List ℕ
or_empty none = []
or_empty (some bs) = bs

-- The text of a token that has one. For a token that has none `text` throws, which the parser's methods leave
-- out: their theorems ask for a text of every token.
abbrev pub text_of : Tokeniser → Token → List ℕ
text_of s t = or_empty (text s t)

unfoldable pub clear : Tokeniser → Tokeniser
unfolding reset_token
clear s = reset_token (record s {
  tokens = [];
  raw_source_name = none;
  input = finish;
  line = 1;
  line_start_position = 0;
  character = 1;
  pos = 0;
})

-- The token, or nullptr, with the result code.
token_or_error : Option Token → Option Token × ElementResult
token_or_error none = (none, accessed_token_past_end)
token_or_error (some t) = (some t, ok)

unfoldable pub get_token : Tokeniser → ℕ → Option Token × ElementResult
unfolding token_or_error
get_token s i = token_or_error (get_elem? s.tokens i)
