-- ===== src/Chroot.antt =====
-- pkg/utils/chroot.go: a callback that runs under another root, with bind mounts around it.
pub mod Mounts
use mathlib.Core.List.{reverse}
use elemental_toolkit.Base.{
  ℕ, zero, suc, String, ◌<>◌, Bool, true, false, Option, none, some, List, [], ◌∷◌, ◌++◌, map, ◌==◌,
  string_eq, if◌then◌else◌,
}
use elemental_toolkit.Base.Text.{trim_suffix}
use elemental_toolkit.Base.Order.{le_string, sort_by}
use elemental_toolkit.Base.Outcome.{Error, plain}
use elemental_toolkit.System.{
  Env, Log, Act, run, mkdir_all, mount, unmount, getwd, open_root, chdir, chroot,
}

-- `extra_mounts` is a Go map, from the path outside to the path inside.
pub record Chroot : Type 0 where
  pub path : String
  pub default_mounts : List String
  pub extra_mounts : List (String × String)
  pub active_mounts : List String

-- `NewChroot`; `no_default_binds` stands for the option `NoDefaultBinds`.
unfoldable pub new_chroot : String → Bool → Chroot
new_chroot path no_default_binds = record {
  path = path;
  default_mounts = if no_default_binds then [] else "/dev" ∷ "/dev/pts" ∷ "/proc" ∷ "/sys" ∷ [];
  extra_mounts = [];
  active_mounts = [];
}

unfoldable pub set_extra_mounts : Chroot → List (String × String) → Chroot
set_extra_mounts c extra = record c { extra_mounts = extra }

-- `c.extraMounts[k]`
unfoldable pub inside_of : String → List (String × String) → String
inside_of k [] = ""
inside_of k ((j, v) ∷ m) = if j == k then v else inside_of k m

-- The sources and the paths inside of the binds, in the order of the two loops of `Prepare`.
unfoldable pub binds : Chroot → List (String × String)
unfolding inside_of sort_by
binds c =
    map (λ m. (m, m)) c.default_mounts
    ++ map (λ k. (k, inside_of k c.extra_mounts))
        (sort_by le_string (map (λ (k, _). k) c.extra_mounts))

unfoldable pub mount_point : Chroot → String → String
unfolding trim_suffix
mount_point c inside = trim_suffix c.path "/" <> inside

abbrev pub add_failure : Option Error → String → List String → List String
add_failure none curr failures = failures
add_failure (some e) curr failures = curr ∷ failures

-- `if err != nil { return ... }` and the rest.
abbrev pub unless_failed {ℓ} : {A : Type ℓ} → Option Error → (Error → A) → A → A
unless_failed none handle rest = rest
unless_failed (some e) handle rest = handle e

-- `if err == nil { err = tmpErr }`
abbrev pub first_error : Option Error → Option Error → Option Error
first_error none later = later
first_error (some e) later = some e

-- What `Close` returns, and the chroot it leaves.
abbrev pub left_open : Chroot → List String → Option Error × Chroot
left_open c [] = (none, record c { active_mounts = [] })
left_open c (f ∷ rest) =
    (some (plain "failed closing chroot environment"), record c { active_mounts = f ∷ rest })

module _ (env : Env) where
  -- The body of the loops of `Prepare`, and the loops: they stop at the first error.
  unfoldable pub bind_all : List (String × String) → Chroot → Act (Option Error × Chroot)
  bind_all [] c w = ((none, c), w)
  bind_all ((source, inside) ∷ rest) c w =
      let target = mount_point c inside in
      let (e₁, w₁) = mkdir_all env target w in
      let (e₂, w₂) = mount env source target "bind" ("bind" ∷ []) w₁ in
      let next = bind_all rest (record c { active_mounts = c.active_mounts ++ (target ∷ []) }) w₂ in
      unless_failed e₁ (λ e. ((some e, c), w₁)) (unless_failed e₂ (λ e. ((some e, c), w₂)) next)

  -- The loop of `Close` over the active mounts from the last to the first: the failures, as they occur.
  unfoldable pub unmount_all : List String → Act (List String)
  unmount_all [] w = ([], w)
  unmount_all (curr ∷ rest) w =
      let (e, w₁) = unmount env curr w in
      let (failures, w₂) = unmount_all rest w₁ in (add_failure e curr failures, w₂)

  -- `Close`
  unfoldable pub close : Chroot → Act (Option Error × Chroot)
  close c w =
      let (synced, w₁) = run env "sync" [] w in
      let (failures, w₂) = unmount_all (reverse c.active_mounts) w₁ in (left_open c failures, w₂)

  -- `Prepare`; the deferred `Close` runs where a loop has failed, and its error is dropped.
  unfoldable pub prepare : Chroot → Act (Option Error × Chroot)
  prepare c w = elim c.active_mounts [
    | m ∷ rest ↦ ((some (plain "There are already active mountpoints for this instance"), c), w)
    | [] ↦
        let ((e, c₁), w₁) = bind_all (binds c) c w in
        let ((e', c₂), w₂) = close c₁ w₁ in
        unless_failed e (λ failure. ((some failure, c₂), w₂)) ((none, c₁), w₁)
  ]

  -- The deferred steps back to the old root.
  unfoldable pub restore_root : Option Error → Act (Option Error)
  restore_root err w =
      let (e₁, w₁) = chdir env "old root" w in
      let (e₂, w₂) = chroot env "." w₁ in
      unless_failed e₁ (λ e. (first_error err (some e), w₁)) (first_error err e₂, w₂)

  -- The part of `RunCallback` under the new root.
  unfoldable pub in_root : String → Act (Option Error) → Act (Option Error)
  in_root path callback w =
      let (e₁, w₁) = chdir env path w in
      let (e₂, w₂) = chroot env path w₁ in
      let (e₃, w₃) = callback w₂ in
      let restored = restore_root e₃ w₃ in
      unless_failed e₁ (λ e. (some e, w₁)) (unless_failed e₂ (λ e. (some e, w₂)) restored)

  -- `if len(c.activeMounts) == 0`: mounts around the callback, unless they are there already.
  unfoldable pub with_mounts : Chroot → Act (Option Error) → Act (Option Error × Chroot)
  with_mounts c callback w = elim c.active_mounts [
    | m ∷ rest ↦ let (e, w₁) = in_root c.path callback w in ((e, c), w₁)
    | [] ↦
        let ((e₁, c₁), w₁) = prepare c w in
        let (e₂, w₂) = in_root c₁.path callback w₁ in
        let ((e₃, c₃), w₃) = close c₁ w₂ in
        unless_failed e₁ (λ e. ((some e, c₁), w₁)) ((first_error e₂ e₃, c₃), w₃)
  ]

  -- `RunCallback` of a chroot whose path is absolute: the working directory is restored at the end.
  unfoldable pub run_callback : Chroot → Act (Option Error) → Act (Option Error × Chroot)
  run_callback c callback w =
      let ((current, e₀), w₁) = getwd env w in
      let (e₁, w₂) = open_root env w₁ in
      let ((e₂, c'), w₃) = with_mounts c callback w₂ in
      let (moved, w₃') = chdir env current w₂ in
      let (back, w₄) = chdir env current w₃ in
      unless_failed e₀ (λ e. ((some e, c), w₁))
        (unless_failed e₁ (λ e. ((some e, c), w₃')) ((first_error e₂ back, c'), w₄))

  -- `ChrootedCallback`
  unfoldable pub chrooted_callback :
      String → List (String × String) → Act (Option Error) → Bool → Act (Option Error × Chroot)
  chrooted_callback path bind_mounts callback no_default_binds =
      run_callback (set_extra_mounts (new_chroot path no_default_binds) bind_mounts) callback
