-- ===== src/Resolve/Classpath.antt =====
-- src/resolve/mod.rs, `Classpath`: which places a jar goes to.
pub mod Places
use jrs.Prelude.{
  Text, Bool, true, false, codes, ◌==◌, list_eq, nat_eq, if◌then◌else◌, Option, none, some, Eq, ◌≡◌,
  ◌↔◌, arith,
}

pub data Classpath : Type 0 where
  compile provided runtime test : Classpath

unfoldable pub as_str : Classpath → Text
as_str compile = codes "compile"
as_str provided = codes "provided"
as_str runtime = codes "runtime"
as_str test = codes "test"

unfoldable pub parse : Text → Classpath
parse s =
    if s == codes "test"
    then test
    else if s == codes "provided"
    then provided
    else if s == codes "runtime"
    then runtime
    else compile

-- Every place that either puts a package.
unfoldable pub join : Classpath → Classpath → Classpath
join compile _ = compile
join provided compile = compile
join provided runtime = compile
join provided provided = provided
join provided test = provided
join runtime compile = compile
join runtime provided = compile
join runtime runtime = runtime
join runtime test = runtime
join test other = other

unfoldable pub compiles : Classpath → Bool
compiles compile = true
compiles provided = true
compiles _ = false

unfoldable pub runs : Classpath → Bool
runs compile = true
runs runtime = true
runs _ = false

-- `PartialEq`, derived.
abbrev pub classpath_beq : Classpath → Classpath → Bool
classpath_beq compile compile = true
classpath_beq provided provided = true
classpath_beq runtime runtime = true
classpath_beq test test = true
classpath_beq _ _ = false

pub classpath_beq_iff : (a b : Classpath) → (classpath_beq a b ≡ true) ↔ (a ≡ b)
classpath_beq_iff compile b = ground arith
classpath_beq_iff provided b = ground arith
classpath_beq_iff runtime b = ground arith
classpath_beq_iff test b = ground arith

instance abbrev pub classpath_eq : Eq Classpath
classpath_eq = record { beq = classpath_beq; beq_iff = classpath_beq_iff }

-- src/workspace.rs, `carried`: how a module's own dependency reaches a dependent that sees the
-- module on `via`.
unfoldable pub carried : Classpath → Classpath → Option Classpath
carried _ provided = none
carried _ test = none
carried test compile = some test
carried test runtime = some test
carried compile compile = some compile
carried provided compile = some provided
carried runtime compile = some runtime
carried compile runtime = some runtime
carried runtime runtime = some runtime
carried provided runtime = some provided
