-- ===== src/Error.antt =====
-- src/error.rs: the error type, and the exit code that each error gives the process. A message is
-- its text; a `std::io::Error` stands as the text it displays.
pub mod Exit
use jrs.Prelude.{refl, codes, ◌++◌, ℕ, Text, ◌≡◌}

pub data JrsError : Type 0 where
  usage manifest toolchain resolve build test : Text → JrsError
  io : (path source : Text) → JrsError

pub data Result {κ} (Value : Type κ) : Type κ where
  err : JrsError → Result Value
  ok : Value → Result Value

-- `?`: the first error is the result.
infixl 5 ◌>>=◌
abbrev pub ◌>>=◌ {κ ℓ} :
    {Value : Type κ} {Next : Type ℓ} → Result Value → (Value → Result Next) → Result Next
err problem >>= next = err problem
ok value >>= next = next value

unfoldable pub exit_code : JrsError → ℕ
exit_code (usage _) = Exit.usage
exit_code (manifest _) = Exit.usage
exit_code _ = Exit.failure

-- `Display`: the message itself, and `{path}: {source}`.
unfoldable pub display : JrsError → Text
display (usage s) = s
display (manifest s) = s
display (toolchain s) = s
display (resolve s) = s
display (build s) = s
display (test s) = s
display (io path source) = path ++ codes ": " ++ source

-- A chain that succeeds has its first part's value, and its second part's result.
pub >>=-eq-ok {κ ℓ} :
    {Value : Type κ} {Next : Type ℓ} {out : Next} (first : Result Value)
    (next : Value → Result Next)
    → (first >>= next) ≡ ok out
    → (value : Value) × (first ≡ ok value) × (next value ≡ ok out)
>>=-eq-ok (err problem) next failed = cc
>>=-eq-ok (ok value) next found = (value, refl, found)
