-- ===== src/Partitioner/Parted/Script.antt =====
-- The script that `parted` is called with says exactly what is queued.
use elemental_toolkit.Base.{
  List-cases, ℕ, zero, suc, ◌+◌, ◌%◌, ◌^◌, ◌≤◌, String, ◌<>◌, ◌≡◌, refl, sym, ap, ◌∙◌, Bool, true,
  false, not, ◌&&◌, ◌||◌, Option, none, some, List, [], ◌∷◌, ◌++◌, map, length, arith, ◌==◌, nat_eq,
  string_eq, if◌then◌else◌, Bool-cases, ==_sound, inl, inr,
}
use elemental_toolkit.Base.Text.{decimal, contains}
use elemental_toolkit.System.{Env, Log}
use elemental_toolkit.Partitioner.{DiskPartition, is_fat, is_table_label, add64, sub64}
use elemental_toolkit.Partitioner.Parted.{
  PartFlag, PartedCall, table_label, deletion_options, partition_name, partition_end,
  partition_options, flag_options, script, options_builder, write_changes,
}

-- The commands of parted's command language that the program uses.
pub data Command : Type 0 where
  mklabel rm : String → Command
  mkpart : String → String → String → String → Command
  set : String → String → String → Command

abbrev first₁ : (String → Command) → List String → Option (Command × List String)
first₁ f (a ∷ rest) = some (f a, rest)
first₁ f _ = none

abbrev first₃ : List String → Option (Command × List String)
first₃ (a ∷ b ∷ c ∷ rest) = some (set a b c, rest)
first₃ _ = none

abbrev first₄ : List String → Option (Command × List String)
first₄ (a ∷ b ∷ c ∷ d ∷ rest) = some (mkpart a b c d, rest)
first₄ _ = none

-- A command takes as many words as it has arguments, whatever they are.
read_command : String → List String → Option (Command × List String)
unfolding string_eq
read_command t args =
    if t == "mklabel"
    then first₁ mklabel args
    else if t == "rm"
    then first₁ rm args
    else if t == "mkpart"
    then first₄ args
    else if t == "set"
    then first₃ args
    else none

-- How parted reads the words of a script; a script has no more commands than words.
pub read_script : ℕ → List String → Option (List Command)
read_script fuel [] = some []
read_script zero (t ∷ args) = none
read_script (suc fuel) (t ∷ args) = elim (read_command t args) [
  | none ↦ none
  | some (c, rest) ↦ elim (read_script fuel rest) [ none ↦ none | some cs ↦ some (c ∷ cs) ]
]

abbrev words : Command → List String → List String
words (mklabel a) rest = "mklabel" ∷ a ∷ rest
words (rm a) rest = "rm" ∷ a ∷ rest
words (mkpart a b c d) rest = "mkpart" ∷ a ∷ b ∷ c ∷ d ∷ rest
words (set a b c) rest = "set" ∷ a ∷ b ∷ c ∷ rest

abbrev all_words : List Command → List String
all_words [] = []
all_words (c ∷ cs) = words c (all_words cs)

read_script-all_words :
    (fuel : ℕ) (cs : List Command) → length cs ≤ fuel → read_script fuel (all_words cs) ≡ some cs
unfolding read_script read_command
read_script-all_words zero [] h = refl
read_script-all_words (suc fuel) [] h = refl
read_script-all_words zero (c ∷ cs) h = absurd (omega arith)
read_script-all_words (suc fuel) (mklabel a ∷ cs) h =
    rw (read_script-all_words fuel cs (omega arith), read_script)
read_script-all_words (suc fuel) (rm a ∷ cs) h =
    rw (read_script-all_words fuel cs (omega arith), read_script)
read_script-all_words (suc fuel) (mkpart a b c d ∷ cs) h =
    rw (read_script-all_words fuel cs (omega arith), read_script)
read_script-all_words (suc fuel) (set a b c ∷ cs) h =
    rw (read_script-all_words fuel cs (omega arith), read_script)

abbrev pub deletion : ℕ → Command
deletion n = rm (decimal n)

-- The table to make: the label that is set where it names one of the two kinds, a GPT else.
abbrev pub table : String → String
table label = if contains label "gpt" || contains label "msdos" then label else "gpt"

-- The name of a new partition: on a GPT its own or one made of its number, else a kind.
abbrev pub naming : Bool → String → ℕ → String
naming false name number = "primary"
naming true String.[] number = "part" <> decimal number
naming true (String.◌∷◌ c rest) number = String.◌∷◌ c rest

-- The last sector of `size` from `start` on, of 64 bits, or the end of the disk for size 0.
abbrev pub last_sector : ℕ → ℕ → String
last_sector start zero = "100%"
last_sector start (suc more) = decimal ((start + more) % 2 ^ 64)

abbrev pub creation : String → DiskPartition → Command
creation label p =
    mkpart (naming (label == "gpt") p.p_label p.number)
      (if is_fat p.file_system then "fat32" else p.file_system) (decimal p.start_s)
      (last_sector p.start_s p.size_s)

abbrev pub flagging : PartFlag → Command
flagging f = set (decimal f.number) f.flag (if f.active then "on" else "off")

-- What is queued: a new table if the disk is wiped, the deletions, the new partitions, the flags.
abbrev pub queued : PartedCall → List Command
queued pc =
    (if pc.wipe then mklabel (table pc.label) ∷ [] else [])
    ++ (map deletion pc.deletions
        ++ (map (creation (table pc.label)) pc.parts ++ map flagging pc.flags))

all_words-append : (cs ds : List Command) → all_words (cs ++ ds) ≡ all_words cs ++ all_words ds
all_words-append [] ds = refl
all_words-append (mklabel a ∷ cs) ds = rw (all_words-append cs ds)
all_words-append (rm a ∷ cs) ds = rw (all_words-append cs ds)
all_words-append (mkpart a b c d ∷ cs) ds = rw (all_words-append cs ds)
all_words-append (set a b c ∷ cs) ds = rw (all_words-append cs ds)

table_label-eq : (pc : PartedCall) → table_label pc ≡ table pc.label
unfolding table_label is_table_label
table_label-eq pc = elim (Bool-cases (contains pc.label "msdos")) [
  | inl e ↦ elim (Bool-cases (contains pc.label "gpt")) [
    | inl f ↦ rw (e, f) refl
    | inr f ↦ rw (e, f) refl
  ]
  | inr e ↦ elim (Bool-cases (contains pc.label "gpt")) [
    | inl f ↦ rw (e, f) refl
    | inr f ↦ rw (e, f) refl
  ]
]

named :
    (gpt : Bool) (name : String) (number : ℕ)
    → (if gpt && not (name == "")
        then name
        else if gpt
        then "part" <> decimal number
        else "primary")
      ≡ naming gpt name number
unfolding string_eq
named false name number = refl
named true String.[] number = refl
named true (String.◌∷◌ c rest) number = elim (Bool-cases (String.◌∷◌ c rest == "")) [
  | inl e ↦ let same : String.◌∷◌ c rest ≡ "" = ==_sound _ _ e in absurd cc
  | inr e ↦ rw e refl
]

partition_name-eq :
    (label : String) (p : DiskPartition)
    → partition_name label p ≡ naming (label == "gpt") p.p_label p.number
unfolding partition_name
partition_name-eq label p = named (label == "gpt") p.p_label p.number

last_of :
    (start size : ℕ)
    → (if size == 0 then "100%" else decimal (sub64 (add64 start size) 1)) ≡ last_sector start size
unfolding nat_eq
last_of start zero = refl
last_of start (suc more) =
    let same : sub64 (add64 start (suc more)) 1 ≡ (start + more) % 2 ^ 64 = omega arith in
    let positive : (suc more == 0) ≡ false = ground arith in rw positive (ap decimal same)

partition_end-eq : (p : DiskPartition) → partition_end p ≡ last_sector p.start_s p.size_s
unfolding partition_end
partition_end-eq p = last_of p.start_s p.size_s

deletion_options-eq : (l : List ℕ) → deletion_options l ≡ all_words (map deletion l)
unfolding deletion_options
deletion_options-eq [] = refl
deletion_options-eq (n ∷ l) = rw (deletion_options-eq l)

partition_options-eq :
    (label : String) (l : List DiskPartition)
    → partition_options label l ≡ all_words (map (creation label) l)
unfolding partition_options
partition_options-eq label [] = refl
partition_options-eq label (p ∷ l) =
    rw (partition_name-eq label p, partition_end-eq p, partition_options-eq label l) refl

flag_options-eq : (l : List PartFlag) → flag_options l ≡ all_words (map flagging l)
unfolding flag_options
flag_options-eq [] = refl
flag_options-eq (f ∷ l) = rw (flag_options-eq l)

ruleset script_words =
    (deletion_options-eq, partition_options-eq, flag_options-eq, all_words-append)

script-eq : (pc : PartedCall) → script pc ≡ all_words (queued pc)
unfolding script
script-eq pc =
    let label : table_label pc ≡ table pc.label = table_label-eq pc in
    by_wipe pc.wipe (table_label pc) (table pc.label) label
  where
    by_wipe :
        (wipe : Bool) (label label' : String)
        → label ≡ label'
        → ((if wipe then "mklabel" ∷ label ∷ [] else [])
            ++ (deletion_options pc.deletions
                ++ (partition_options label pc.parts ++ flag_options pc.flags)))
          ≡ all_words (
              (if wipe then mklabel label' ∷ [] else [])
              ++ (map deletion pc.deletions
                  ++ (map (creation label') pc.parts ++ map flagging pc.flags)))
    by_wipe true label label' e = rw e (simp script_words)
    by_wipe false label label' e = rw e (simp script_words)

-- Read back word by word, the script is what is queued, in the order: new table, deletions, new
-- partitions, flags. The table is the one that is set if its name is of a known kind, else a GPT. A new
-- partition has its own name or one made of its number on a GPT and the kind primary else, its file
-- system, its first sector, and its last one, of 64 bits, or the end of the disk for size 0. This
-- holds for any labels, file systems and flag names.
pub read_script-script :
    (pc : PartedCall) (fuel : ℕ)
    → length (queued pc) ≤ fuel
    → read_script fuel (script pc) ≡ some (queued pc)
read_script-script pc fuel h = rw (script-eq pc) (read_script-all_words fuel (queued pc) h)

append-right_nil {ℓ} : {A : Type ℓ} (xs ys : List A) → xs ++ ys ≡ [] → ys ≡ []
append-right_nil [] ys h = h
append-right_nil (x ∷ xs) ys h = cc

flags_nothing : (pc : PartedCall) → script pc ≡ [] → flag_options pc.flags ≡ []
unfolding script
flags_nothing pc h =
    let rest = partition_options (table_label pc) pc.parts ++ flag_options pc.flags in
    append-right_nil (partition_options (table_label pc) pc.parts) (flag_options pc.flags) (
      append-right_nil (deletion_options pc.deletions) rest (
        append-right_nil (if pc.wipe then "mklabel" ∷ table_label pc ∷ [] else [])
          (deletion_options pc.deletions ++ rest) h))

write_changes_nothing :
    (env : Env) (pc : PartedCall) (w : Log) → script pc ≡ [] → (write_changes env pc w).0.1 ≡ pc
unfolding write_changes
write_changes_nothing env pc w h = rw (h, options_builder, write_changes) refl

write_changes_some :
    (env : Env) (pc : PartedCall) (w : Log) (t : String) (rest : List String)
    → script pc ≡ t ∷ rest
    → (write_changes env pc w).0.1 ≡ record pc { wipe = false; parts = []; deletions = [] }
unfolding write_changes
write_changes_some env pc w t rest h = rw (h, options_builder, write_changes) refl

-- A write empties the queue except for the flags: a further `WriteChanges` sets the same flags again.
pub script-write_changes :
    (env : Env) (pc : PartedCall) (w : Log)
    → script (write_changes env pc w).0.1 ≡ flag_options pc.flags
script-write_changes env pc w = elim (List-cases (script pc)) [
  | inl nothing ↦
      rw (write_changes_nothing env pc w nothing) (nothing ∙ sym (flags_nothing pc nothing))
  | inr (t, rest, some_words) ↦
      rw (write_changes_some env pc w t rest some_words)
        (unfold script deletion_options partition_options in refl)
]
