-- ===== src/Lib.antt =====
-- A verification library for jrs, a build tool for the JVM: its own logic as functions, and the
-- theorems that make it correct. Paths are from the repository's root.
--
-- The parts, and the code that each is about:
-- - Prelude: numbers' Boolean tests, lists, texts (lists of code points), their bytes in UTF-8, maps as
--   lists of entries, and orders, with the lemmas that the other modules share.
-- - Error (src/error.rs): the error type, its exit codes, and the results that carry it.
-- - Coord (src/resolve/coord.rs): coordinates, their parsing and printing, repository paths, scopes,
--   and in Coord/Version the order of versions. A version's numbers stop at the largest u64.
-- - Resolve (src/resolve/mod.rs, with the data of src/resolve/pom.rs and src/manifest/mod.rs): the
--   walk of `resolve_walking`. Classpath is the places a jar goes to, Managed the versions that
--   `[managed]` and its BOMs decide, Admission which dependencies of a POM are walked, Walk the levels
--   and their mediation, Widen the loop that carries a wider classpath on to dependencies.
-- - Workspace (src/workspace.rs): members, what they depend on, and in Workspace/Order and
--   Workspace/Build the order in which they build.
-- - Test (src/test.rs): how test classes are dealt out to JVMs and to machines.
-- - Expand (src/expand.rs): the expansion of `${name}` in resources and, in Expand/Glob, the matching
--   of paths.
-- - Relocate (src/relocate.rs): package relocation, on bytes: texts and entry names in
--   Relocate/Rewrite, and a class file's constant pool in Relocate/ClassFile.
-- - Impact (src/compile/impact.rs): which test classes a change can reach. Impact/Walk is the worklist,
--   Impact/Classes the users of a class and the tests that find classes by themselves, Impact/Compare
--   the comparison of two snapshots, Impact/Snapshots their text, and Impact/Select the whole. A
--   path is its bytes, as on Unix; in a snapshot's text and in the reasons given it is what
--   `Path::display` makes of them, with replacement characters for what is not UTF-8.
-- - Tasks (src/task.rs, with the data of src/manifest/mod.rs): the graph of tasks and hooks. Tasks/Cycle
--   is the search for a cycle, Tasks/Plan the order in which tasks run, Tasks/Check the checks of names.
-- - Json (src/json.rs): the writer, and in Json/Reader and Json/Parser the reader, on characters.
--
-- How they interact: Resolve walks Coord's coordinates and compares their versions; Workspace takes
-- Classpath from Resolve; all that fails fails with Error's type, save where a part has errors of its
-- own, which then are a type of the model's.
--
-- State is passed explicitly: the variables of a Rust loop are a record, and its body a function of
-- that record. A position in a text is the number itself (Relocate) or the text behind it
-- (Expand/Glob). A HashMap is a list of entries; nothing proved depends on the order in which the
-- list has them. A message of several parts that only a reader sees is a text, or a constructor with
-- what the message names.
--
-- Loops: a loop over a list is structural recursion. The walk counts its levels down to the limit of
-- 64 that the code tests itself. The widening loop, the glob loop and the rewriting loop run on fuel
-- that the model computes from their input, and a theorem each shows that it is enough: each round of
-- widening narrows what is left to widen, each step of the glob loop passes a character or moves its
-- starting point, and each step of the rewriting passes a byte, the packages having names. The fuel
-- of the searches in Workspace is an argument, and running out of it is a result of its own; for
-- the members that others depend on, a theorem gives fuel that is enough.
--
-- The JSON reader runs on three rounds for each character and four more, and a theorem shows that they
-- are enough for every text. The walk over classes has a round for each class and one for the first.
--
-- The fuel of the searches over tasks bounds their depth, and running out of it is a result of its own;
-- a theorem gives fuel that is enough for the search for a cycle, and one that there is enough for
-- the plan where no cycle is found.
--
-- What comes from outside is an argument: the bytes of a class file and what src/compile/abi.rs reads in
-- them, the effective POM of a coordinate, which is fetched and
-- merged, the host that a classifier is expanded for, and Unicode's alphanumeric characters.
--
-- Not modelled: I/O (processes, files, the network, terminals), what third-party libraries do (TOML,
-- XML, zip, hashing), the worker pool, which only fetches, and the parts of jrs that are not named
-- above.
pub mod Coord
pub mod Error
pub mod Expand
pub mod Impact
pub mod Json
pub mod Prelude
pub mod Relocate
pub mod Resolve
pub mod Tasks
pub mod Test
pub mod Workspace
