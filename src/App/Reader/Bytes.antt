-- ===== src/App/Reader/Bytes.antt =====
-- What the loops of `ArgReader` read (src/app/Cli.cpp), and that they read back what
-- `printHexBytes` prints (src/app/Handlers.cpp).
use cannect.Base.{
  ℕ, zero, suc, ◌/◌, ◌%◌, ◌≤◌, ◌<◌, ◌≡◌, refl, ◌∙◌, ap, arith, Bool, true, false, ◌==◌,
  if◌then◌else◌, if_true, if_cases, List, [], ◌∷◌, ◌++◌, length, map,
}
use cannect.Dispatcher.{same_name}
use cannect.Protocol.State.{zeros, copy_over}
use cannect.App.Text.{Text, ok}
use cannect.App.Printing.{digit_char, emit, hex_byte, print_hex_bytes}
use cannect.App.Numbers.{parse_u8}
use cannect.App.Numbers.RoundTrip.{parse_u8-hex_byte}
use cannect.App.Reader.{
  next_u8-reads, ◌>>=◌, has_dash, at_option, read_bytes, read_frame, timeout_option, read_vector_of,
  read_vector_until_timeout,
}

-- Each argument is a number whose low eight bits are the byte, and does not begin with a dash.
abbrev pub Spells : List Text → List ℕ → Type 0
Spells [] [] = Unit {0}
Spells [] (b ∷ bytes) = ⊥
Spells (arg ∷ args) [] = ⊥
Spells (arg ∷ args) (b ∷ bytes) = (parse_u8 arg ≡ ok b) × (has_dash arg ≡ false) × Spells args bytes

-- The loop of `readFrame` takes the arguments up to an option.
read_bytes-Spells :
    (room : ℕ) (args rest : List Text) (bytes : List ℕ) (t : ℕ)
    → Spells args bytes
    → length bytes ≤ room
    → at_option rest ≡ true
    → read_bytes room (record { rest = args ++ rest; timeout_ms = t })
      ≡ ok (bytes, record { rest = rest; timeout_ms = t })
unfolding read_bytes
read_bytes-Spells zero [] rest [] t s fits ends = refl
read_bytes-Spells zero [] rest (b ∷ bytes) t s fits ends = elim s [ ]
read_bytes-Spells zero (arg ∷ args) rest [] t s fits ends = elim s [ ]
read_bytes-Spells zero (arg ∷ args) rest (b ∷ bytes) t s fits ends = absurd (omega arith)
read_bytes-Spells (suc room) [] rest [] t s fits ends = if_true _ _ ends
read_bytes-Spells (suc room) [] rest (b ∷ bytes) t s fits ends = elim s [ ]
read_bytes-Spells (suc room) (arg ∷ args) rest [] t s fits ends = elim s [ ]
read_bytes-Spells (suc room) (arg ∷ args) rest (b ∷ bytes) t (number, plain, s) fits ends =
    rw plain (
      rw (next_u8-reads arg (args ++ rest) t number, ◌>>=◌)
        (rw (read_bytes-Spells room args rest bytes t s (omega arith) ends, ◌>>=◌)))

-- `readFrame` takes at most eight bytes up to an option, and leaves zeros behind them.
pub read_frame-Spells :
    (args rest : List Text) (bytes : List ℕ) (t : ℕ)
    → Spells args bytes
    → length bytes ≤ 8
    → at_option rest ≡ true
    → read_frame (record { rest = args ++ rest; timeout_ms = t })
      ≡ ok (copy_over zeros bytes (length bytes), record { rest = rest; timeout_ms = t })
unfolding read_frame
read_frame-Spells args rest bytes t s fits ends =
    rw (read_bytes-Spells 8 args rest bytes t s fits ends, ◌>>=◌)

-- No argument, or the option --timeout.
abbrev pub at_timeout : List Text → Bool
at_timeout [] = true
at_timeout (arg ∷ rest) = same_name arg timeout_option

plain_differs : (arg : Text) → has_dash arg ≡ false → same_name arg timeout_option ≡ false
unfolding same_name
plain_differs [] plain = refl
plain_differs (c ∷ arg) plain = rw plain

pub read_vector_of-Spells :
    (args rest : List Text) (bytes : List ℕ) (t : ℕ)
    → Spells args bytes
    → at_timeout rest ≡ true
    → read_vector_of (args ++ rest) t ≡ ok (bytes, record { rest = rest; timeout_ms = t })
unfolding read_vector_of
read_vector_of-Spells [] [] [] t s ends = refl
read_vector_of-Spells [] (arg ∷ rest) [] t s ends = if_true _ _ ends
read_vector_of-Spells [] rest (b ∷ bytes) t s ends = elim s [ ]
read_vector_of-Spells (arg ∷ args) rest [] t s ends = elim s [ ]
read_vector_of-Spells (arg ∷ args) rest (b ∷ bytes) t (number, plain, s) ends =
    rw (plain_differs arg plain) (rw number (rw (read_vector_of-Spells args rest bytes t s ends)))

abbrev pub AreBytes : List ℕ → Type 0
AreBytes [] = Unit {0}
AreBytes (b ∷ bytes) = (b < 256) × AreBytes bytes

pub Spells-hex_byte : (bytes : List ℕ) → AreBytes bytes → Spells (map hex_byte bytes) bytes
Spells-hex_byte [] h = tt
Spells-hex_byte (b ∷ bytes) (small, h) = (parse_u8-hex_byte b small, refl, Spells-hex_byte bytes h)

-- How a shell cuts a line into arguments at its spaces.
abbrev pub push : ℕ → List Text → List Text
push c [] = (c ∷ []) ∷ []
push c (w ∷ ws) = (c ∷ w) ∷ ws

abbrev pub words : Text → List Text
words [] = [] ∷ []
words (c ∷ line) = if c == b' ' then [] ∷ words line else push c (words line)

-- No character of the word is a space.
abbrev pub IsWord : Text → Type 0
IsWord [] = Unit {0}
IsWord (c ∷ w) = ((c == b' ') ≡ false) × IsWord w

words_last : (w : Text) → IsWord w → words w ≡ w ∷ []
words_last [] h = refl
words_last (c ∷ w) (other, h) = rw other (ap (push c) (words_last w h))

words_first : (w line : Text) → IsWord w → words (w ++ (b' ' ∷ line)) ≡ w ∷ words line
words_first [] line h = refl
words_first (c ∷ w) line (other, h) = rw other (ap (push c) (words_first w line h))

digit_char_other : (d : ℕ) → d < 16 → (digit_char d == b' ') ≡ false
digit_char_other d h = ground arith

emit-IsWord : (fuel n : ℕ) (out : Text) → IsWord out → IsWord (emit 16 fuel n out)
unfolding emit
emit-IsWord zero n out h = h
emit-IsWord (suc fuel) n out h =
    if_cases IsWord (n / 16 == 0) (λ _. (other, h)) (λ _. emit-IsWord fuel (n / 16) _ (other, h))
  where
    other : (digit_char (n % 16) == b' ') ≡ false
    other = digit_char_other (n % 16) (omega arith)

words-print_hex_bytes :
    (b : ℕ) (bytes : List ℕ) → words (print_hex_bytes (b ∷ bytes)) ≡ map hex_byte (b ∷ bytes)
unfolding print_hex_bytes
words-print_hex_bytes b [] = words_last (hex_byte b) (refl, (refl, emit-IsWord (suc b) b [] tt))
words-print_hex_bytes b (c ∷ bytes) =
    words_first (hex_byte b) _ (refl, (refl, emit-IsWord (suc b) b [] tt))
    ∙ ap (λ ws. hex_byte b ∷ ws) (words-print_hex_bytes c bytes)

-- The text that `printHexBytes` prints of some bytes, cut at its spaces and put before --timeout or at
-- the end of the arguments, is read back as these bytes by `readVectorUntilTimeout`.
pub read_vector-print_hex_bytes :
    (bytes : List ℕ) (rest : List Text) (t : ℕ)
    → 1 ≤ length bytes
    → AreBytes bytes
    → at_timeout rest ≡ true
    → read_vector_until_timeout
        (record { rest = words (print_hex_bytes bytes) ++ rest; timeout_ms = t })
      ≡ ok (bytes, record { rest = rest; timeout_ms = t })
unfolding read_vector_until_timeout
read_vector-print_hex_bytes [] rest t some_ h ends = elim some_ [ ]
read_vector-print_hex_bytes (b ∷ bytes) rest t some_ h ends =
    ap (λ ws. read_vector_of (ws ++ rest) t) (words-print_hex_bytes b bytes)
    ∙ read_vector_of-Spells (map hex_byte (b ∷ bytes)) rest (b ∷ bytes) t
        (Spells-hex_byte (b ∷ bytes) h) ends
