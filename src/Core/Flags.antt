-- ===== src/Core/Flags.antt =====
-- include/coro/core/Flags.h. `Flags<Enum>::Int` is `int`, since `std::is_unsigned` is false of every
-- enumeration; a value is its 32-bit pattern.
use libcornrow.Base.{ℕ, ◌-◌, ◌^◌, Bool, not, ◌&&◌, ◌||◌, ◌==◌, bit_and, bit_or, bit_xor}

abbrev pub Flags : Type 0
Flags = ℕ

-- `std::numeric_limits<Int>::max()`
abbrev pub any : Flags
any = 2 ^ 31 - 1

abbrev pub and_flags : Flags → Flags → Flags
and_flags f g = bit_and f g

abbrev pub or_flags : Flags → Flags → Flags
or_flags f g = bit_or f g

abbrev pub xor_flags : Flags → Flags → Flags
xor_flags f g = bit_xor f g

-- `operator~` on a 32-bit pattern
abbrev pub complement : Flags → Flags
complement f = 2 ^ 32 - 1 - f

abbrev pub is_empty : Flags → Bool
is_empty f = f == 0

unfoldable pub test_flag : Flags → ℕ → Bool
test_flag i f = (bit_and i f == f) && (not (f == 0) || (i == f))
