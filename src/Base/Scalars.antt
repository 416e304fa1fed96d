-- ===== src/Base/Scalars.antt =====
-- How Python's scalar values are represented.
use Prim.Native.Nat.{ℕ, ◌*◌, ◌^◌}
use Prim.Native.String.{String}

-- A `UUID` is its canonical text, so `str(u)` is `u` and equality is that of texts.
abbrev pub Uuid : Type 0
Uuid = String

-- A finite non-negative `float`, in units of 2 ^ -1074: every such double is a whole number of them,
-- and Python's comparisons of floats are those of these numbers.
abbrev pub Real : Type 0
Real = ℕ

-- A non-negative `Decimal` with two places, in cents.
abbrev pub Money : Type 0
Money = ℕ

-- the float 1.0, and an `int` compared with a float
unfoldable pub real_one : ℕ
real_one = 2 ^ 1074

abbrev pub to_real : ℕ → Real
to_real n = n * real_one
