-- ===== src/Coord/Paths.antt =====
-- src/resolve/coord.rs: where the files of a coordinate live in a repository, and the classifier of
-- the host's platform.
pub mod Files
pub mod Directories
use jrs.Prelude.{
  ℕ, Text, Bool, true, false, ◌&&◌, ◌||◌, not, codes, ◌==◌, list_eq, nat_eq, trim, starts_with,
  contains_text, replace, if◌then◌else◌, Option, none, some, ◌++◌, ◌∷◌, [], map, is_empty,
}
use jrs.Coord.{Coord, pom_coord}

-- What the process sees of its platform: `JRS_OS_CLASSIFIER`, `OS`, `ARCH` and `target_endian`.
pub record Host : Type 0 where
  pub override_classifier : Option Text
  pub os : Text
  pub arch : Text
  pub little_endian : Bool

abbrev pub os_classifier : Text
os_classifier = codes "{os-classifier}"

unfoldable pub is_platform_classifier : Text → Bool
is_platform_classifier = contains_text os_classifier

abbrev host_os : Text → Text
host_os os =
    if os == codes "macos" || os == codes "ios"
    then codes "osx"
    else if os == codes "solaris" || os == codes "illumos"
    then codes "sunos"
    else os

abbrev host_arch : Bool → Text → Text
host_arch little_endian arch =
    if arch == codes "x86"
    then codes "x86_32"
    else if arch == codes "aarch64"
    then codes "aarch_64"
    else if arch == codes "arm"
    then codes "arm_32"
    else if arch == codes "powerpc"
    then codes "ppc_32"
    else if arch == codes "powerpc64" && little_endian
    then codes "ppcle_64"
    else if arch == codes "powerpc64"
    then codes "ppc_64"
    else if arch == codes "s390x"
    then codes "s390_64"
    else if arch == codes "loongarch64"
    then codes "loongarch_64"
    else arch

unfoldable pub host_classifier : Host → Text
host_classifier h = host_os h.os ++ b'-' ∷ host_arch h.little_endian h.arch

host_of : Host → Option Text → Text
host_of h none = host_classifier h
host_of h (some v) = if is_empty (trim v) then host_classifier h else v

unfoldable pub expand_classifier : Host → Text → Text
unfolding host_of
expand_classifier h classifier =
    if is_platform_classifier classifier
    then replace os_classifier (trim (host_of h h.override_classifier)) classifier
    else classifier

-- Whether the file describes the artifact: `pom`, `pom.sha1`, ….
abbrev pub is_pom : Text → Bool
is_pom ext = ext == codes "pom" || starts_with ext (codes "pom.")

main_name : Coord → Text → Text → Text
main_name c ext file_version = c.artifact ++ b'-' ∷ (file_version ++ b'.' ∷ ext)

unfoldable pub file_name_as : Host → Coord → Text → Text → Text
unfolding main_name
file_name_as h c ext file_version = elim c.classifier [
  | none ↦ main_name c ext file_version
  | some k ↦
      if is_pom ext
      then main_name c ext file_version
      else c.artifact ++ b'-' ∷ (file_version ++ b'-' ∷ (expand_classifier h k ++ b'.' ∷ ext))
]

unfoldable pub file_name : Host → Coord → Text → Text
unfolding file_name_as
file_name h c ext = file_name_as h c ext c.version

-- `group.replace('.', "/")`.
abbrev pub slashed : Text → Text
slashed = map (λ c. if c == b'.' then b'/' else c)

unfoldable pub version_dir : Coord → Text
version_dir c = slashed c.group ++ b'/' ∷ (c.artifact ++ b'/' ∷ c.version)

unfoldable pub repo_path_as : Host → Coord → Text → Text → Text
unfolding version_dir file_name_as
repo_path_as h c ext file_version = version_dir c ++ b'/' ∷ file_name_as h c ext file_version

unfoldable pub repo_path : Host → Coord → Text → Text
unfolding repo_path_as
repo_path h c ext = repo_path_as h c ext c.version
