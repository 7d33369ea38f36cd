-- ===== src/Partitioner/Gdisk.antt =====
-- pkg/partitioner/sgdisk.go: changes to a GPT, queued, tried by `sgdisk -P` and then written.
pub mod Pretend
use elemental_toolkit.Base.{
  ℕ, String, ◌<>◌, Bool, true, false, not, Option, none, some, List, [], ◌∷◌, ◌++◌, ◌==◌, string_eq,
  if◌then◌else◌,
}
use elemental_toolkit.Base.Text.{decimal}
use elemental_toolkit.Base.Outcome.{Error, plain}
use elemental_toolkit.System.{Env, Act, pure, run, ◌>>=◌, ◌>>◌}
use elemental_toolkit.Partitioner.{DiskPartition, is_fat}

pub record GdiskCall : Type 0 where
  pub dev : String
  pub wipe : Bool
  pub parts : List DiskPartition
  pub deletions : List ℕ
  pub expand : Bool
  pub pretend : Bool

unfoldable pub new_gdisk_call : String → GdiskCall
new_gdisk_call dev = record {
  dev = dev;
  wipe = false;
  parts = [];
  deletions = [];
  expand = false;
  pretend = false;
}

abbrev pub option_if : Bool → String → List String
option_if b s = if b then s ∷ [] else []

unfoldable pub deletion_options : List ℕ → List String
deletion_options [] = []
deletion_options (n ∷ rest) = ("-d=" <> decimal n) ∷ deletion_options rest

-- The type code: any FAT file system is taken for an EFI partition.
unfoldable pub type_options : DiskPartition → List String
unfolding is_fat
type_options part =
    if is_fat part.file_system
    then ("-t=" <> decimal part.number <> ":EF00") ∷ []
    else option_if (not (part.file_system == "")) ("-t=" <> decimal part.number <> ":8300")

unfoldable pub partition_options : List DiskPartition → List String
unfolding type_options
partition_options [] = []
partition_options (part ∷ rest) =
    ("-n=" <> decimal part.number <> ":" <> decimal part.start_s <> ":+" <> decimal part.size_s)
    ∷ (option_if (not (part.p_label == "")) ("-c=" <> decimal part.number <> ":" <> part.p_label)
        ++ (type_options part ++ partition_options rest))

-- The options for what is queued, without `-P` and the device.
unfoldable pub queued_options : GdiskCall → List String
queued_options gd =
    option_if gd.wipe "--zap-all"
    ++ (option_if gd.expand "-e" ++ (deletion_options gd.deletions ++ partition_options gd.parts))

-- `buildOptions`
unfoldable pub build_options : GdiskCall → List String
build_options gd = elim (option_if gd.pretend "-P" ++ queued_options gd) [
  | [] ↦ []
  | t ∷ rest ↦ t ∷ (rest ++ (gd.dev ∷ []))
]

unfoldable pub set_pretend : GdiskCall → Bool → GdiskCall
set_pretend gd pretend = record gd { pretend = pretend }

unfoldable pub expand_p_table : GdiskCall → GdiskCall
expand_p_table gd = record gd { expand = true }

-- `SetPartitionTableLabel`
unfoldable pub set_partition_table_label : GdiskCall → String → Option Error × GdiskCall
set_partition_table_label gd label = if label == "gpt" then (none, gd) else (
  some (plain ("invalid partition table type (" <> label <> "), only GPT is supported by sgdisk")),
  gd,
)

unfoldable pub create_partition : GdiskCall → DiskPartition → GdiskCall
create_partition gd p = record gd { parts = gd.parts ++ (p ∷ []) }

unfoldable pub delete_partition : GdiskCall → ℕ → GdiskCall
delete_partition gd n = record gd { deletions = gd.deletions ++ (n ∷ []) }

unfoldable pub wipe_table : GdiskCall → Bool → GdiskCall
wipe_table gd wipe = record gd { wipe = wipe }

module _ (env : Env) where
  -- `WriteChanges`: what it returns, and the call afterwards.
  unfoldable pub write_changes : GdiskCall → Act ((String × Option Error) × GdiskCall)
  unfolding build_options set_pretend
  write_changes gd w =
      let trial = set_pretend gd true in
      let ((out, e), w₁) = run env "sgdisk" (build_options trial) w in
      elim e [
        | some failure ↦ (((out, some failure), trial), w₁)
        | none ↦
            let real = set_pretend trial false in
            (do
              result ← run env "sgdisk" (build_options real)
              run env "partx" ("-u" ∷ real.dev ∷ [])
              pure (result, record real { wipe = false; parts = []; deletions = [] }))
              w₁
      ]

  -- `Print` and `Verify`
  unfoldable pub print : GdiskCall → Act (String × Option Error)
  print gd = run env "sgdisk" ("-p" ∷ "-v" ∷ gd.dev ∷ [])

  unfoldable pub verify : GdiskCall → Act (String × Option Error)
  verify gd = run env "sgdisk" ("--verify" ∷ gd.dev ∷ [])
