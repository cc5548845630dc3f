-- ===== src/CString.antt =====
-- The C library's text functions that the policy readers call, on lists of bytes: `fgets`,
-- `isspace` (in the C locale), `strtok_r`, `strncmp` with a whole key, `atoi` and `strtoul`.
pub mod Lines
use user_ric.Prelude.{
  ℕ, zero, suc, ◌+◌, ◌-◌, ◌*◌, ◌%◌, ◌^◌, Bool, true, false, not, ◌&&◌, ◌||◌, List, [], ◌∷◌, ◌++◌,
  Option, none, some, if◌then◌else◌, ◌==◌, ltb, leb,
}
use user_ric.Prelude.Int.{ℤ, pos, negsuc}
use Prim.Native.Char.{code}
use Prim.Native.String.{String}

abbrev pub Bytes : Type 0
Bytes = List ℕ

-- the bytes of an ASCII text
abbrev pub codes : String → Bytes
codes String.[] = []
codes (String.◌∷◌ c s) = code c ∷ codes s

-- `isspace`
abbrev pub is_space : ℕ → Bool
is_space c = c == 32 || (leb 9 c && leb c 13)

-- a C string ends at its first NUL byte
unfoldable pub c_string : Bytes → Bytes
c_string [] = []
c_string (c ∷ cs) = if c == 0 then [] else c ∷ c_string cs

-- a byte in front of the first line
unfoldable pub onto_first : ℕ → List Bytes → List Bytes
onto_first c [] = (c ∷ []) ∷ []
onto_first c (l ∷ ls) = (c ∷ l) ∷ ls

-- What successive calls `fgets(buf, 512, fp)` put into the buffer: up to 511 bytes, ended early by
-- a newline, which is kept. The number is the bytes that the current call may still take, less one.
unfoldable pub fgets_from : ℕ → Bytes → List Bytes
unfolding onto_first
fgets_from room [] = []
fgets_from room (c ∷ cs) =
    let next = (c ∷ []) ∷ fgets_from 510 cs in
    let more = onto_first c (fgets_from (room - 1) cs) in
    if c == b'\n' || room == 0 then next else more

unfoldable pub fgets_all : Bytes → List Bytes
unfolding fgets_from
fgets_all = fgets_from 510

-- `while (test(*p)) p++` on a C string
unfoldable pub skip_while : (ℕ → Bool) → Bytes → Bytes
skip_while test [] = []
skip_while test (c ∷ cs) = let rest = skip_while test cs in if test c then rest else c ∷ cs

-- the delimiters " \t\r\n"
abbrev pub is_delimiter : ℕ → Bool
is_delimiter c = c == b' ' || c == b'\t' || c == b'\r' || c == b'\n'

abbrev pub flush : Bytes → List Bytes → List Bytes
flush [] ts = ts
flush (c ∷ cs) ts = (c ∷ cs) ∷ ts

-- the tokens of `strtok_r`, the first of which has begun with the given bytes
unfoldable pub tokens_from : Bytes → Bytes → List Bytes
tokens_from begun [] = flush begun []
tokens_from begun (c ∷ cs) =
    let after = flush begun (tokens_from [] cs) in
    let inside = tokens_from (begun ++ c ∷ []) cs in if is_delimiter c then after else inside

unfoldable pub tokens : Bytes → List Bytes
unfolding tokens_from
tokens = tokens_from []

-- `strncmp(s, key, strlen(key)) == 0`, with what stands behind the key
unfoldable pub strip_prefix : Bytes → Bytes → Option Bytes
strip_prefix [] s = some s
strip_prefix (k ∷ ks) [] = none
strip_prefix (k ∷ ks) (c ∷ cs) = if c == k then strip_prefix ks cs else none

abbrev pub is_digit : ℕ → Bool
is_digit c = leb b'0' c && leb c b'9'

-- the number that the leading digits spell, after `n`
unfoldable pub digits_from : ℕ → Bytes → ℕ
digits_from n [] = n
digits_from n (c ∷ cs) =
    let rest = digits_from (n * 10 + (c - b'0')) cs in if is_digit c then rest else n

-- the sign (true for minus) and the magnitude that `strtol` and `strtoul` read in base 10
unfoldable pub signed_digits : Bytes → Bool × ℕ
unfolding digits_from
signed_digits [] = (false, 0)
signed_digits (c ∷ cs) =
    if c == b'-'
    then (true, digits_from 0 cs)
    else if c == b'+'
    then (false, digits_from 0 cs)
    else (false, digits_from 0 (c ∷ cs))

-- `strtol(s, NULL, 10)` in a 64-bit `long`, which stops at its limits
unfoldable pub strtol : Bytes → ℤ
unfolding skip_while signed_digits
strtol s =
    let (minus, n) = signed_digits (skip_while is_space s) in
    if not minus
    then pos (if leb (2 ^ 63) n then 2 ^ 63 - 1 else n)
    else if n == 0
    then pos 0
    else negsuc (if leb (2 ^ 63) n then 2 ^ 63 - 1 else n - 1)

-- the `int` that a 32-bit pattern stands for
abbrev pub signed32 : ℕ → ℤ
signed32 w = if ltb w (2 ^ 31) then pos w else negsuc (2 ^ 32 - w - 1)

-- conversion to `int`
unfoldable pub to_i32 : ℤ → ℤ
to_i32 (pos n) = signed32 (n % 2 ^ 32)
to_i32 (negsuc n) = signed32 (2 ^ 32 - 1 - n % 2 ^ 32)

-- `atoi`, which the C library defines as `(int)strtol(s, NULL, 10)`
unfoldable pub atoi : Bytes → ℤ
unfolding strtol to_i32
atoi s = to_i32 (strtol s)

-- `(uint16_t)strtoul(s, NULL, 10)` with a 64-bit `unsigned long`
unfoldable pub strtoul_u16 : Bytes → ℕ
unfolding skip_while signed_digits
strtoul_u16 s =
    let (minus, n) = signed_digits (skip_while is_space s) in
    let wide = if leb (2 ^ 64) n then 2 ^ 64 - 1 else if minus then (2 ^ 64 - n) % 2 ^ 64 else n in
    wide % 65536
