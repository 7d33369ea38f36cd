-- ===== src/Partitioner/Mkfs/Options.antt =====
-- `Apply` makes a file system on the device of the call and on nothing else.
use elemental_toolkit.Base.{
  String, ◌<>◌, ◌≡◌, ◌≢◌, refl, ◌⊎◌, inl, inr, true, false, none, some, List, [], ◌∷◌, ◌++◌,
  Bool-cases, ◌==◌, string_eq, if◌then◌else◌,
}
use mathlib.Core.List.{append_assoc}
use elemental_toolkit.System.{Env, Log, ran, run}
use elemental_toolkit.Partitioner.{is_fat}
use elemental_toolkit.Partitioner.Mkfs.{MkfsCall, is_linux, label_options, build_options, apply}

apply-some :
    (env : Env) (mkfs : MkfsCall) (w : Log) (args : List String)
    → build_options mkfs ≡ some args
    → apply env mkfs w ≡ run env ("mkfs." <> mkfs.file_system) args w
unfolding apply
apply-some env mkfs w args h = rw (h, apply) refl

linux_options :
    (mkfs : MkfsCall)
    → is_linux mkfs.file_system ≡ true
    → (opts : List String) × (build_options mkfs ≡ some (opts ++ (mkfs.dev ∷ [])))
unfolding build_options
linux_options mkfs h =
    let force : List String = if mkfs.file_system == "btrfs" then "-f" ∷ [] else [] in
    (
      label_options "-L" mkfs.label ++ (mkfs.custom_opts ++ force),
      rw (h, build_options) (simp append_assoc refl),
    )

fat_options :
    (mkfs : MkfsCall)
    → is_linux mkfs.file_system ≡ false
    → is_fat mkfs.file_system ≡ true
    → (opts : List String) × (build_options mkfs ≡ some (opts ++ (mkfs.dev ∷ [])))
unfolding build_options
fat_options mkfs h k = (
  label_options "-n" mkfs.label ++ mkfs.custom_opts,
  rw (h, k, build_options) (simp append_assoc refl),
)

unsupported :
    (mkfs : MkfsCall)
    → is_linux mkfs.file_system ≡ false
    → is_fat mkfs.file_system ≡ false
    → build_options mkfs ≡ none
unfolding build_options
unsupported mkfs h k = rw (h, k, build_options) refl

-- `Apply` runs nothing and returns an error where the file system is none that it knows. Where it knows it,
-- it runs one command, the tool of the file system, whose last argument is the device, and returns what
-- that returns.
pub apply_lem :
    (env : Env) (mkfs : MkfsCall) (w : Log)
    → ((is_linux mkfs.file_system ≡ false)
        × (is_fat mkfs.file_system ≡ false)
        × ((apply env mkfs w).1 ≡ w)
        × ((apply env mkfs w).0.1 ≢ none))
      ⊎ (((is_linux mkfs.file_system ≡ true) ⊎ (is_fat mkfs.file_system ≡ true))
          × (opts : List String) × (let tool = "mkfs." <> mkfs.file_system in
              let args = opts ++ (mkfs.dev ∷ []) in
              apply env mkfs w ≡ (env.run w tool args, ran tool args (env.run w tool args).1 ∷ w)))
unfolding apply
apply_lem env mkfs w = elim (Bool-cases (is_linux mkfs.file_system)) [
  | inl linux ↦
      let (opts, e) = linux_options mkfs linux in
      inr (inl linux, opts, apply-some env mkfs w (opts ++ (mkfs.dev ∷ [])) e)
  | inr other ↦ elim (Bool-cases (is_fat mkfs.file_system)) [
    | inl fat ↦
        let (opts, e) = fat_options mkfs other fat in
        inr (inr fat, opts, apply-some env mkfs w (opts ++ (mkfs.dev ∷ [])) e)
    | inr unknown ↦
        rw (other, unknown, unsupported mkfs other unknown, apply) (inl (refl, refl, refl, λ h. cc))
  ]
]
