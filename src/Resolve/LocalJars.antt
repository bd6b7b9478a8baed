-- ===== src/Resolve/LocalJars.antt =====
-- src/resolve/mod.rs, `local_jars`: the jars that the manifest names by path.
use jrs.Prelude.{Text, Option, none, some, List, ◌∷◌, [], ◌++◌, Bool, true, false, if◌then◌else◌}
use jrs.Resolve.Classpath.{Classpath, compile, provided, runtime, test}
use jrs.Resolve.Model.{Dependency}

pub record LocalJar : Type 0 where
  pub name : Text
  pub path : Text
  pub classpath : Classpath
  pub checksum : Option Text
  pub jar : Option Text

unfoldable pub local_classpath : Dependency → Bool → Classpath
local_classpath d dev =
    if dev
    then test
    else if d.compile_only
    then provided
    else if d.runtime_only
    then runtime
    else compile

pub local_in : Bool → List Dependency → List LocalJar
local_in dev [] = []
local_in dev (d ∷ ds) = elim d.path [
  | none ↦ local_in dev ds
  | some path ↦
      record {
        name = d.artifact;
        path = path;
        classpath = local_classpath d dev;
        checksum = none;
        jar = none;
      }
      ∷ local_in dev ds
]

-- `local_jars`: `[dependencies]`, then `[dev-dependencies]`.
unfoldable pub local_jars : List Dependency → List Dependency → List LocalJar
unfolding local_in
local_jars dependencies dev_dependencies =
    local_in false dependencies ++ local_in true dev_dependencies
