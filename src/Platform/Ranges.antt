-- ===== src/Platform/Ranges.antt =====
-- The ranges of int, long int and std::uint64_t.
use occase.Base.{ℕ, ◌<◌, ℤ, pos, negsuc}

abbrev pub IsInt : ℤ → Type 0
IsInt (pos n) = n < 2147483648
IsInt (negsuc n) = n < 2147483648

abbrev pub IsLong : ℤ → Type 0
IsLong (pos n) = n < 9223372036854775808
IsLong (negsuc n) = n < 9223372036854775808

abbrev pub IsCode : ℕ → Type 0
IsCode n = n < 18446744073709551616
