-- ===== src/Test/Coverage.antt =====
-- src/test.rs: a coverage figure as a percentage.
use jrs.Prelude.{ℕ, Text, codes, ◌++◌, ◌==◌, nat_eq, if◌then◌else◌, ◌/◌, ◌%◌, ◌∷◌, digit, decimal}

unfoldable pub percent : ℕ → Text
unfolding decimal
percent basis_points =
    let whole = basis_points / 100 in
    let fraction = basis_points % 100 in
    if fraction == 0
    then decimal whole ++ codes "%"
    else if fraction % 10 == 0
    then decimal whole ++ (codes "." ++ (decimal (fraction / 10) ++ codes "%"))
    else decimal whole ++ (codes "." ++ (digit (fraction / 10) ∷ digit fraction ∷ codes "%"))
