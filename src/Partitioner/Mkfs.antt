-- ===== src/Partitioner/Mkfs.antt =====
-- pkg/partitioner/mkfs.go: the call that makes a file system.
pub mod Options
use elemental_toolkit.Base.{
  String, ◌<>◌, Bool, ◌||◌, Option, none, some, List, [], ◌∷◌, ◌++◌, ◌==◌, string_eq, if◌then◌else◌,
}
use elemental_toolkit.Base.Text.{contains}
use elemental_toolkit.Base.Outcome.{Error, plain}
use elemental_toolkit.System.{Env, Act, run}
use elemental_toolkit.Partitioner.{is_fat}

pub record MkfsCall : Type 0 where
  pub file_system : String
  pub label : String
  pub custom_opts : List String
  pub dev : String

-- `ext[2-4]|xfs|btrfs`, matched anywhere.
unfoldable pub is_linux : String → Bool
is_linux fs =
    contains fs "ext2"
    || contains fs "ext3"
    || contains fs "ext4"
    || contains fs "xfs"
    || contains fs "btrfs"

-- `-L` or `-n` with the label, where there is one.
unfoldable pub label_options : String → String → List String
label_options flag label = if label == "" then [] else flag ∷ label ∷ []

-- `buildOptions`: none where it returns an error.
unfoldable pub build_options : MkfsCall → Option (List String)
unfolding label_options is_fat
build_options mkfs =
    if is_linux mkfs.file_system
    then some (
        label_options "-L" mkfs.label
        ++ (mkfs.custom_opts
            ++ ((if mkfs.file_system == "btrfs" then "-f" ∷ [] else []) ++ (mkfs.dev ∷ []))))
    else if is_fat mkfs.file_system
    then some (label_options "-n" mkfs.label ++ (mkfs.custom_opts ++ (mkfs.dev ∷ [])))
    else none

-- `Apply`
unfoldable pub apply : Env → MkfsCall → Act (String × Option Error)
apply env mkfs w = elim (build_options mkfs) [
  | none ↦ (("", some (plain ("unsupported filesystem: " <> mkfs.file_system))), w)
  | some opts ↦ run env ("mkfs." <> mkfs.file_system) opts w
]
