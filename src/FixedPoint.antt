-- ===== src/FixedPoint.antt =====
-- lib/fixed_floating_point.c and .h: 17.16 fixed point in `int`. A result that `int` does not hold
-- keeps its low 32 bits, in the sums, differences and products as in the conversions from int64_t.
pub mod Laws
use pint_os_assignment.Common.{ℕ, ◌/◌, Bool, true, false, if◌then◌else◌}
use pint_os_assignment.Common.Int.{ℤ, pos, negsuc, ◌+ℤ◌, ◌-ℤ◌, ◌*ℤ◌, ◌/ℤ◌, ltb_ℤ, to_int}

abbrev pub ff_f : ℕ
ff_f = 65536

unfoldable pub convert_ff : ℤ → ℤ
convert_ff n = to_int (n *ℤ pos ff_f)

unfoldable pub convert_down : ℤ → ℤ
convert_down x = x /ℤ pos ff_f

unfoldable pub convert_nearest : ℤ → ℤ
convert_nearest x =
    if ltb_ℤ x (pos 0) then to_int (x -ℤ pos (ff_f / 2)) else to_int (x +ℤ pos (ff_f / 2))

unfoldable pub add_ff : ℤ → ℤ → ℤ
add_ff x y = to_int (x +ℤ y)

unfoldable pub sub_ff : ℤ → ℤ → ℤ
sub_ff x y = to_int (x -ℤ y)

unfoldable pub add_fi : ℤ → ℤ → ℤ
add_fi x n = to_int (x +ℤ to_int (n *ℤ pos ff_f))

unfoldable pub sub_fi : ℤ → ℤ → ℤ
sub_fi x n = to_int (x -ℤ to_int (n *ℤ pos ff_f))

unfoldable pub mul_ff : ℤ → ℤ → ℤ
mul_ff x y = to_int (x *ℤ y /ℤ pos ff_f)

unfoldable pub mul_fi : ℤ → ℤ → ℤ
mul_fi x n = to_int (x *ℤ n)

unfoldable pub div_ff : ℤ → ℤ → ℤ
div_ff x y = to_int (x *ℤ pos ff_f /ℤ y)

unfoldable pub div_fi : ℤ → ℤ → ℤ
div_fi x n = x /ℤ n
