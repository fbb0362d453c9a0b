-- ===== src/Types.antt =====
-- include/common/Types.h, platform/TimerConstants.h and the comparisons of common/Util.cpp: the
-- result codes, the constants, and arithmetic on `UINT32` and `UINT64`.
use timer_and_callback.Base.{
  ℕ, ◌+◌, ◌-◌, ◌%◌, ◌^◌, Bool, true, false, ltb, leb, ◌==◌, if◌then◌else◌,
}

-- `enum Result`
pub data Result : Type 0 where
  ok warning error severe fatal not_unique buffer_problems invalid : Result

abbrev pub u32_mod : ℕ
u32_mod = 2 ^ 32

abbrev pub u64_mod : ℕ
u64_mod = 2 ^ 64

-- `MAX_NUMBER_OF_TIMERS`
abbrev pub max_number_of_timers : ℕ
max_number_of_timers = 1024

-- What is stored of a value in a `UINT32` and in a `UINT64`.
abbrev pub u32 : ℕ → ℕ
u32 x = x % u32_mod

abbrev pub u64 : ℕ → ℕ
u64 x = x % u64_mod

-- `x - 1` on a `UINT32`, which wraps at 0.
abbrev pub pred32 : ℕ → ℕ
pred32 x = (x + u32_mod - 1) % u32_mod

-- `x - y` on a `UINT64`.
abbrev pub sub64 : ℕ → ℕ → ℕ
sub64 x y = (x + u64_mod - y) % u64_mod

abbrev pub uint64_lt : ℕ → ℕ → Bool
uint64_lt value1 value2 = if ltb value1 value2 then true else false

abbrev pub uint64_leq : ℕ → ℕ → Bool
uint64_leq value1 value2 = if leb value1 value2 then true else false

abbrev pub uint64_eq : ℕ → ℕ → Bool
uint64_eq value1 value2 = if value1 == value2 then true else false

abbrev pub uint64_geq : ℕ → ℕ → Bool
uint64_geq value1 value2 = if leb value2 value1 then true else false
