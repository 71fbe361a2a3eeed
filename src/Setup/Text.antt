-- ===== src/Setup/Text.antt =====
-- What the sources use of the C library for texts: `strcpy` into a buffer of a given size,
-- `std::to_string` of a `short` and `atoi`.
use udm.Base.{
  ℕ, zero, suc, ◌+◌, ◌-◌, ◌*◌, ◌/◌, ◌%◌, ◌^◌, Bool, List, [], ◌∷◌, ◌++◌, ◌==◌, leb, ltb,
  if◌then◌else◌, ◌&&◌, ◌||◌, length, take, drop,
}
use udm.World.{M, pure}

-- The text of a C string ends before its first NUL.
unfoldable pub c_text : List ℕ → List ℕ
c_text [] = []
c_text (c ∷ cs) = let rest = c_text cs in if c == 0 then [] else c ∷ rest

-- `strcpy` into a buffer that holds `old`: what the buffer holds then. Bytes that do not fit are written
-- behind the buffer, and counted.
unfoldable pub strcpy : List ℕ → List ℕ → M (List ℕ)
strcpy old text w =
    let bytes = c_text text ++ 0 ∷ [] in
    pure (take (length old) bytes ++ drop (length bytes) old)
      (record w { overrun = w.overrun + (length bytes - length old) })

-- The decimal digits of a number, in front of `tail`; `fuel` bounds their number.
unfoldable pub digits : ℕ → ℕ → List ℕ → List ℕ
digits zero n tail = tail
digits (suc fuel) n tail =
    let more = digits fuel (n / 10) ((b'0' + n % 10) ∷ tail) in
    if ltb n 10 then (b'0' + n) ∷ tail else more

-- `std::to_string` of a `short`, a bit pattern of 16 bits. Five digits are enough.
unfoldable pub to_string : ℕ → List ℕ
to_string port = if ltb port (2 ^ 15) then digits 5 port [] else b'-' ∷ digits 5 (2 ^ 16 - port) []

abbrev pub is_digit : ℕ → Bool
is_digit c = leb b'0' c && leb c b'9'

-- The number that the leading digits of a text stand for.
unfoldable pub number : ℕ → List ℕ → ℕ
number n [] = n
number n (c ∷ cs) = let rest = number (n * 10 + (c - b'0')) cs in if is_digit c then rest else n

-- `isspace`
abbrev is_space : ℕ → Bool
is_space c = c == 32 || (leb 9 c && leb c 13)

-- `(short)-n`, when `n` is an `int`.
abbrev pub negate16 : ℕ → ℕ
negate16 n = (2 ^ 16 - n % 2 ^ 16) % 2 ^ 16

-- The sign and the digits that `atoi` reads, as a `short`.
unfoldable pub signed : List ℕ → ℕ
signed [] = 0
signed (c ∷ cs) =
    if c == b'-'
    then negate16 (number 0 cs)
    else if c == b'+'
    then number 0 cs % 2 ^ 16
    else number 0 (c ∷ cs) % 2 ^ 16

-- `(short)atoi(text)`, for a number that fits an `int`; the language says nothing about others, and
-- the low bits stand here.
unfoldable pub port_of : List ℕ → ℕ
port_of [] = signed []
port_of (c ∷ cs) = let rest = port_of cs in if is_space c then rest else signed (c ∷ cs)
