-- ===== src/Error/Exit.antt =====
-- src/error.rs, `mod exit`: the exit codes.
use jrs.Prelude.{ℕ}

abbrev pub success : ℕ
success = 0

abbrev pub failure : ℕ
failure = 1

abbrev pub usage : ℕ
usage = 2
