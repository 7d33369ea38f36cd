-- ===== src/Partitioner/Parted.antt =====
-- pkg/partitioner/parted.go: changes to a partition table, queued and written by one call of `parted`.
pub mod Script
use elemental_toolkit.Base.{
  ℕ, String, ◌<>◌, Bool, true, false, not, ◌&&◌, Option, none, some, List, [], ◌∷◌, ◌++◌, ◌==◌,
  nat_eq, string_eq, if◌then◌else◌,
}
use elemental_toolkit.Base.Text.{decimal}
use elemental_toolkit.Base.Outcome.{Error, plain}
use elemental_toolkit.System.{Env, Act, pure, run, ◌>>=◌, ◌>>◌}
use elemental_toolkit.Partitioner.{DiskPartition, add64, sub64, is_fat, is_table_label}

pub record PartFlag : Type 0 where
  pub flag : String
  pub active : Bool
  pub number : ℕ

pub record PartedCall : Type 0 where
  pub dev : String
  pub wipe : Bool
  pub parts : List DiskPartition
  pub deletions : List ℕ
  pub label : String
  pub flags : List PartFlag

unfoldable pub new_parted_call : String → PartedCall
new_parted_call dev = record {
  dev = dev;
  wipe = false;
  parts = [];
  deletions = [];
  label = "";
  flags = [];
}

-- The label that is written: GPT where it is not set or invalid.
unfoldable pub table_label : PartedCall → String
unfolding is_table_label
table_label pc = if is_table_label pc.label then pc.label else "gpt"

unfoldable pub deletion_options : List ℕ → List String
deletion_options [] = []
deletion_options (n ∷ rest) = "rm" ∷ decimal n ∷ deletion_options rest

unfoldable pub partition_name : String → DiskPartition → String
partition_name label part =
    if label == "gpt" && not (part.p_label == "")
    then part.p_label
    else if label == "gpt"
    then "part" <> decimal part.number
    else "primary"

-- Size 0 takes all the space that is left.
unfoldable pub partition_end : DiskPartition → String
partition_end part =
    if part.size_s == 0 then "100%" else decimal (sub64 (add64 part.start_s part.size_s) 1)

unfoldable pub partition_options : String → List DiskPartition → List String
unfolding partition_name partition_end is_fat
partition_options label [] = []
partition_options label (part ∷ rest) =
    "mkpart"
    ∷ partition_name label part
    ∷ (if is_fat part.file_system then "fat32" else part.file_system)
    ∷ decimal part.start_s
    ∷ partition_end part
    ∷ partition_options label rest

unfoldable pub flag_options : List PartFlag → List String
flag_options [] = []
flag_options (f ∷ rest) =
    "set" ∷ decimal f.number ∷ f.flag ∷ (if f.active then "on" else "off") ∷ flag_options rest

-- The list `opts` before the last statements of `optionsBuilder`.
unfoldable pub script : PartedCall → List String
script pc =
    (if pc.wipe then "mklabel" ∷ table_label pc ∷ [] else [])
    ++ (deletion_options pc.deletions
        ++ (partition_options (table_label pc) pc.parts ++ flag_options pc.flags))

-- `optionsBuilder`
unfoldable pub options_builder : PartedCall → List String
unfolding script
options_builder pc = elim (script pc) [
  | [] ↦ []
  | t ∷ rest ↦ "--script" ∷ "--machine" ∷ "--" ∷ pc.dev ∷ "unit" ∷ "s" ∷ t ∷ rest
]

-- `SetPartitionTableLabel`
unfoldable pub set_partition_table_label : PartedCall → String → Option Error × PartedCall
unfolding is_table_label
set_partition_table_label pc label =
    if is_table_label label
    then (none, record pc { label = label })
    else (some (plain "Invalid partition table type, only msdos and gpt are supported"), pc)

unfoldable pub create_partition : PartedCall → DiskPartition → PartedCall
create_partition pc p = record pc { parts = pc.parts ++ (p ∷ []) }

unfoldable pub delete_partition : PartedCall → ℕ → PartedCall
delete_partition pc n = record pc { deletions = pc.deletions ++ (n ∷ []) }

unfoldable pub set_partition_flag : PartedCall → ℕ → String → Bool → PartedCall
set_partition_flag pc n flag active = record pc {
  flags = pc.flags ++ (record { flag = flag; active = active; number = n } ∷ []);
}

unfoldable pub wipe_table : PartedCall → Bool → PartedCall
wipe_table pc wipe = record pc { wipe = wipe }

module _ (env : Env) where
  -- `WriteChanges`: what it returns, and the call afterwards.
  unfoldable pub write_changes : PartedCall → Act ((String × Option Error) × PartedCall)
  unfolding options_builder
  write_changes pc = elim (options_builder pc) [
    | [] ↦ pure (("", none), pc)
    | t ∷ rest ↦ do
      result ← run env "parted" (t ∷ rest)
      run env "partx" ("-u" ∷ pc.dev ∷ [])
      pure (result, record pc { wipe = false; parts = []; deletions = [] })
  ]

  -- `Print`
  unfoldable pub print : PartedCall → Act (String × Option Error)
  print pc =
      run env "parted" ("--script" ∷ "--machine" ∷ "--" ∷ pc.dev ∷ "unit" ∷ "s" ∷ "print" ∷ [])
