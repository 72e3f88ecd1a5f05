-- ===== src/BigEndian/Signed.antt =====
-- The signed encoders and decoders of include/clod/big_endian.h. A signed number is an integer; its
-- conversion to and from an unsigned type is modulo a power of two.
use libclod.Prelude.{ℕ, suc, ◌-◌, ◌*◌, ◌/◌, ◌%◌, ◌^◌, ltb, if◌then◌else◌, ℤ, pos, negsuc}
use libclod.BigEndian.Codec.{beu_enc, beu_dec}

-- The widths that the header has.
pub data Width : Type 0 where
  bei8 : Width
  bei16 : Width
  bei24 : Width
  bei32 : Width
  bei40 : Width
  bei48 : Width
  bei56 : Width
  bei64 : Width

-- The bytes that a width takes, and the binary digits of the C type that holds its numbers.
abbrev pub size : Width → ℕ
size bei8 = 1
size bei16 = 2
size bei24 = 3
size bei32 = 4
size bei40 = 5
size bei48 = 6
size bei56 = 7
size bei64 = 8

abbrev pub held : Width → ℕ
held bei8 = 8
held bei16 = 16
held bei24 = 32
held bei32 = 32
held bei40 = 64
held bei48 = 64
held bei56 = 64
held bei64 = 64

-- `(uintN_t)val`
abbrev pub to_unsigned : ℕ → ℤ → ℕ
to_unsigned bits (pos a) = a % 2 ^ bits
to_unsigned bits (negsuc a) = 2 ^ bits - suc (a % 2 ^ bits)

-- `(intN_t)val`
abbrev pub to_signed : ℕ → ℕ → ℤ
to_signed bits u =
    if ltb (u % 2 ^ bits) (2 ^ (bits - 1))
    then pos (u % 2 ^ bits)
    else negsuc (2 ^ bits - suc (u % 2 ^ bits))

-- `val >> k`, which keeps the sign
abbrev pub shift_right : ℤ → ℕ → ℤ
shift_right (pos a) k = pos (a / 2 ^ k)
shift_right (negsuc a) k = negsuc (a / 2 ^ k)

-- `val > MAX ? MAX : val < MIN ? MIN : val`, for numbers of so many binary digits
abbrev pub clamp : ℕ → ℤ → ℤ
clamp bits (pos a) = if ltb (2 ^ (bits - 1) - 1) a then pos (2 ^ (bits - 1) - 1) else pos a
clamp bits (negsuc a) = if ltb (2 ^ (bits - 1) - 1) a then negsuc (2 ^ (bits - 1) - 1) else negsuc a

-- The number that is handed to the unsigned encoder.
abbrev pub word : Width → ℤ → ℕ
word bei8 val = to_unsigned 8 val
word bei16 val = to_unsigned 16 val
word bei24 val = to_unsigned 32 (clamp 24 val)
word bei32 val = to_unsigned 32 val
word bei40 val = to_unsigned 64 (clamp 40 val)
word bei48 val = to_unsigned 64 (clamp 48 val)
word bei56 val = to_unsigned 64 (clamp 56 val)
word bei64 val = to_unsigned 64 val

-- The number that is made of what the unsigned decoder gives.
abbrev pub signed : Width → ℕ → ℤ
signed bei8 u = to_signed 8 u
signed bei16 u = to_signed 16 u
signed bei24 u = shift_right (to_signed 32 (u * 2 ^ 8 % 2 ^ 32)) 8
signed bei32 u = to_signed 32 u
signed bei40 u = shift_right (to_signed 64 (u * 2 ^ 24 % 2 ^ 64)) 24
signed bei48 u = shift_right (to_signed 64 (u * 2 ^ 16 % 2 ^ 64)) 16
signed bei56 u = shift_right (to_signed 64 (u * 2 ^ 8 % 2 ^ 64)) 8
signed bei64 u = to_signed 64 u

-- `bei8_enc` … `bei64_enc`
unfoldable pub bei_enc : Width → (ℕ → ℕ) → ℕ → ℤ → ℕ → ℕ
unfolding beu_enc
bei_enc width m ptr val = beu_enc (size width) m ptr (word width val)

-- `bei8_dec` … `bei64_dec`
unfoldable pub bei_dec : Width → (ℕ → ℕ) → ℕ → ℤ
unfolding beu_dec
bei_dec width m ptr = signed width (beu_dec (size width) m ptr)
