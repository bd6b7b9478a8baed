-- ===== src/Coord/Scope.antt =====
-- src/resolve/coord.rs: Maven's dependency scopes, and version ranges.
use jrs.Prelude.{
  Text, Bool, true, false, ◌||◌, codes, ◌==◌, list_eq, nat_eq, trim, to_ascii_lowercase,
  starts_with, if◌then◌else◌, ◌≡◌, refl,
}

pub data Scope : Type 0 where
  compile runtime provided system test import : Scope

-- The `match` of `Scope::parse`; whatever is not named is the compile scope.
scope_of : Text → Scope
scope_of s =
    if s == codes "runtime"
    then runtime
    else if s == codes "provided"
    then provided
    else if s == codes "system"
    then system
    else if s == codes "test"
    then test
    else if s == codes "import"
    then import
    else compile

unfoldable pub parse : Text → Scope
unfolding scope_of
parse s = scope_of (to_ascii_lowercase (trim s))

unfoldable pub as_str : Scope → Text
as_str compile = codes "compile"
as_str runtime = codes "runtime"
as_str provided = codes "provided"
as_str system = codes "system"
as_str test = codes "test"
as_str import = codes "import"

unfoldable pub is_transitive : Scope → Bool
is_transitive compile = true
is_transitive runtime = true
is_transitive _ = false

-- `[1.0,2.0)`, `(1.5,]`.
unfoldable pub is_range : Text → Bool
is_range version = let v = trim version in starts_with v (codes "[") || starts_with v (codes "(")

-- Every scope is read back from the name that it is written under.
pub parse-as_str : (s : Scope) → parse (as_str s) ≡ s
unfolding parse as_str trim to_ascii_lowercase
parse-as_str compile = refl
parse-as_str runtime = refl
parse-as_str provided = refl
parse-as_str system = refl
parse-as_str test = refl
parse-as_str import = refl
