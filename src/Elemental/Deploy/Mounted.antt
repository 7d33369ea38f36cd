-- ===== src/Elemental/Deploy/Mounted.antt =====
-- `DumpSource`: what it leaves mounted.
use mathlib.Core.Path.{subst}
use elemental_toolkit.Base.{
  suc, String, ◌≡◌, refl, ◌⊎◌, inl, inr, ap, Bool, true, false, Option, none, some, List, [], ◌∷◌,
  ◌==◌, string_eq, if◌then◌else◌, arith, Option-cases, Bool-cases,
}
use elemental_toolkit.Base.Text.{trim_space}
use elemental_toolkit.Base.Outcome.{Error, Result, ok, err, panic}
use elemental_toolkit.Base.Proc.{Proc, Keeps, Keeps-bind, or_fail, handle, then_do, inside}
use elemental_toolkit.System.{Env, Log, Act, unmounted, mounted, run, mkdir_all, asked, made_dir}
use elemental_toolkit.Chroot.Mounts.{mounts, unmounts}
use elemental_toolkit.Specs.{Image, ImageSource}
use elemental_toolkit.Elemental.Sync.{FileParts, rooted_excludes}
use elemental_toolkit.Elemental.Images.{mount_image, set_up_loop, mount_loop, unmount_image}
use elemental_toolkit.Elemental.Deploy.{
  SyncFunc, image_of, read_mounted, dump_mounted, dump_file, dump_by_type, dump_source, dump_image,
  verify_image, extracted, dump_dir,
}

-- A step that does not panic and leaves `P` where it succeeds and `E` where it fails.
module _ {W : Type 0} (E : W → Type 0) where
  abbrev Splits : {A : Type 0} → (W → Type 0) → Result A × W → Type 0
  Splits P (ok a, w) = P w
  Splits P (err e, w) = E w
  Splits P (panic, w) = ⊥

  Splits-then_do :
      {A B : Type 0} (P Q : W → Type 0) (next : A → Proc W B) (r : Result A) (w : W)
      → Splits P (r, w)
      → ((a : A) (w : W) → P w → Splits Q (next a w))
      → Splits Q (then_do next (r, w))
  Splits-then_do P Q next (ok a) w h k = k a w h
  Splits-then_do P Q next (err e) w h k = h
  Splits-then_do P Q next panic w h k = h

  Splits-or_fail :
      (P : W → Type 0) (e : Option Error) (w : W)
      → P w
      → (P w → E w)
      → Splits P
          (elim e as (λ _. Result (Unit {0})) [ none ↦ ok tt | some failure ↦ err failure ], w)
  Splits-or_fail P none w p h = p
  Splits-or_fail P (some e) w p h = h p

  Splits-value :
      {A : Type 0} (P : W → Type 0) (a : A) (e : Option Error) (w : W)
      → P w
      → (P w → E w)
      → Splits P (elim e as (λ _. Result A) [ none ↦ ok a | some failure ↦ err failure ], w)
  Splits-value P a none w p h = p
  Splits-value P a (some e) w p h = h p

abbrev pub source_dir : String
source_dir = "/run/elemental/imgsrc"

same_dir : (path : String) → path ≡ source_dir → (path == source_dir) ≡ true
unfolding string_eq
same_dir path h = rw h refl

-- As often mounted as unmounted, and once more.
abbrev pub Even : Log → Type 0
Even w = mounts source_dir w ≡ unmounts source_dir w

abbrev Once : Log → Type 0
Once w = mounts source_dir w ≡ suc (unmounts source_dir w)

-- Not mounted, but where the last call fails: an unmount, or the check that the directory is mounted.
abbrev pub Left : Env → Log → Type 0
Left env w =
    Even w
    ⊎ ((e : Error) × (rest : Log) × ((w ≡ unmounted source_dir (some e) ∷ rest)
          ⊎ ((w ≡ asked "not_mount_point" source_dir ∷ rest)
              × ((env.not_mount_point rest source_dir).1 ≡ some e))))

-- A call that does not mount or unmount there with success.
abbrev pub IsStill : {A : Type 0} → Act A → Type 0
IsStill m =
    (w : Log)
    → (mounts source_dir (m w).1 ≡ mounts source_dir w)
      × (unmounts source_dir (m w).1 ≡ unmounts source_dir w)

nowhere : (x : Bool × Option Error) → x.0 ≡ true → x.1 ≡ none → x ≡ (true, none)
nowhere (b, e) h k = rw (h, k) refl

abbrev There : (Log → Type 0) → Image × Log → Type 0
There P (img, w) = (img.mount_point ≡ source_dir) × P w

-- The mounter's check is documented to miss bind mounts and symbolic links, and to return an error beside
-- `true`. What is mounted at the directory of sources is a loop device.
module _ (env : Env)
    (truthful : (w : Log) → env.not_mount_point w source_dir ≡ (true, none) → Even w) where
  after_mount :
      (loop : String) (opts : List String) (e : Option Error) (img : Image) (w : Log)
      → There Even (img, w)
      → Splits (There Even) (There Once) (
          handle
            (λ s. (inside (run env "losetup" ("-d" ∷ loop ∷ [])) s).1)
            (
              elim e as (λ _. Result (Unit {0})) [ none ↦ ok tt | some failure ↦ err failure ],
              (img, mounted loop img.mount_point "auto" opts e ∷ w),
            ))
  after_mount loop opts none img w (p, h) = (p, rw (same_dir img.mount_point p) (omega (arith, h)))
  after_mount loop opts (some e) img w (p, h) = (p, h)

  mount_image-Splits :
      (opts : List String) (img : Image) (w : Log)
      → There Even (img, w)
      → Splits (There Even) (There Once) (mount_image env opts (img, w))
  unfolding mount_image set_up_loop mount_loop
  mount_image-Splits opts img w h =
      let made = mkdir_all env img.mount_point w in
      let tried = or_fail (λ (img, w). inside (mkdir_all env img.mount_point) (img, w)) (img, w) in
      Splits-then_do (There Even) (There Even) (There Once) _ tried.0 tried.1
        (Splits-or_fail (There Even) (There Even) made.0 (img, made.1) h (λ h. h))
        (λ done (img, w) h.
          let loop = run env "losetup" ("--show" ∷ "-f" ∷ img.file ∷ []) w in
          let found = set_up_loop env (img, w) in
          Splits-then_do (There Even) (There Even) (There Once) _ found.0 found.1
            (Splits-value (There Even) (There Even) loop.0.0 loop.0.1 (img, loop.1) h (λ h. h))
            (λ out (img, w) h.
              let e = env.mount w (trim_space out) img.mount_point "auto" opts in
              let bound = mount_loop env opts (trim_space out) (img, w) in
              Splits-then_do (There Even) (There Once) (There Once) _ bound.0 bound.1
                (after_mount (trim_space out) opts e img w h) (λ done (img, w) h. h)))

  unmount_image-Left :
      (img : Image) (w : Log) → There Once (img, w) → Left env (unmount_image env (img, w)).1.1
  unfolding unmount_image
  unmount_image-Left img w (p, h) = elim (Bool-cases (env.not_mount_point w img.mount_point).0) [
    | inl e ↦ elim (Option-cases (env.not_mount_point w img.mount_point).1) [
      | inl g ↦
          let even = truthful w (
            subst (λ path. env.not_mount_point w path ≡ (true, none)) p
              (nowhere (env.not_mount_point w img.mount_point) e g)) in
          absurd (omega (arith, even, h))
      | inr (failure, g) ↦
          rw (e, unmount_image)
            (inr (
              failure,
              w,
              inr (
                ap (λ path. asked "not_mount_point" path ∷ w) p,
                subst (λ path. (env.not_mount_point w path).1 ≡ some failure) p g,
              ),
            ))
    ]
    | inr e ↦
        let asked_before = asked "not_mount_point" img.mount_point ∷ w in
        rw (e, unmount_image)
          (elim (Option-cases (env.unmount asked_before img.mount_point)) [
            | inl f ↦ rw f (inl (rw (f, same_dir img.mount_point p) (omega (arith, h))))
            | inr (failure, f) ↦ rw f (
                inr (
                  failure,
                  asked_before,
                  inl (rw f (ap (λ path. unmounted path (some failure) ∷ asked_before) p)),
                ))
          ])
  ]

  module _ (parts : FileParts) (sync : SyncFunc env parts)
      (still_sync : (source target : String) (excludes : List String)
        → IsStill (sync source target excludes))
      (still_extract : (image target : String) → IsStill (parts.extract_image image target))
      (still_verify : (verify : String → Act (Option Error)) (image : String)
        → parts.cosign ≡ some verify
        → IsStill (verify image)) where
    read_mounted-Left :
        (target : String) (s : Image × Log)
        → There Once s
        → Left env (read_mounted env parts sync target s).1.1
    unfolding read_mounted
    read_mounted-Left target (img, w) (p, h) =
        let copied = sync source_dir target [] w in
        let same = still_sync source_dir target [] w in
        unmount_image-Left img copied.1 (p, omega (arith, h, same))

    dump_mounted-Left :
        (file target : String) (w : Log)
        → Even w
        → Left env (dump_mounted env parts sync file target w).1
    unfolding dump_mounted
    dump_mounted-Left file target w h =
        let img = image_of file source_dir in
        let bound = mount_image env ("auto" ∷ "ro" ∷ []) (img, w) in
        by_result bound.0 bound.1 (mount_image-Splits ("auto" ∷ "ro" ∷ []) img w (refl, h))
      where
        by_result :
            (r : Result (Unit {0})) (s : Image × Log)
            → Splits (There Even) (There Once) (r, s)
            → Left env (then_do (λ done. read_mounted env parts sync target) (r, s)).1.1
        by_result (ok done) s h = read_mounted-Left target s h
        by_result (err e) (img, w) h = inl h.1
        by_result panic s h = absurd h

    dump_file-Left :
        (target : String) (source : ImageSource) (w : Log)
        → Even w
        → Left env (dump_file env parts sync target (source, w)).1.1
    unfolding dump_file
    dump_file-Left target source w h =
        after_dir (env.mkdir_all w source_dir)
          (source, made_dir source_dir (env.mkdir_all w source_dir) ∷ w) h
      where
        after_dir :
            (e : Option Error) (s : ImageSource × Log)
            → Even s.1
            → Left env
                (then_do
                  (λ done (source, w).
                    inside (dump_mounted env parts sync source.source target) (source, w))
                  (
                    elim e as (λ _. Result (Unit {0})) [
                      | none ↦ ok tt
                      | some failure ↦ err failure
                    ],
                    s,
                  )).1.1
        after_dir none (source, w) h = dump_mounted-Left source.source target w h
        after_dir (some e) (source, w) h = inl h

    dump_dir-Left :
        (target : String) (source : ImageSource) (w : Log)
        → Even w
        → Left env (dump_dir env parts sync target (source, w)).1.1
    unfolding dump_dir
    dump_dir-Left target source w h =
        let same = still_sync source.source target (rooted_excludes source.source) w in
        inl (omega (arith, h, same))

    verify_image-Even : (s : ImageSource × Log) → Even s.1 → Even (verify_image env parts s).1.1
    unfolding verify_image
    verify_image-Even (source, w) h = elim (Option-cases parts.cosign) [
      | inl e ↦ rw (e, verify_image) h
      | inr (verify, e) ↦
          let same = still_verify verify source.source e w in
          rw (e, verify_image) (omega (arith, h, same))
    ]

    extracted-Even :
        (r : (String × Option Error) × Log) (source : ImageSource)
        → Even r.1
        → Even (extracted env parts r source).1.1
    extracted-Even ((digest, none), w) source h = h
    extracted-Even ((digest, some e), w) source h = h

    dump_image-Even : (target : String) → Keeps (λ s. Even s.1) (dump_image env parts target)
    unfolding dump_image
    dump_image-Even target =
        Keeps-bind (λ s. Even s.1) (verify_image env parts) _ verify_image-Even
          (λ done (source, w) h.
            let same = still_extract source.source target w in
            extracted-Even (parts.extract_image source.source target w) source
              (omega (arith, h, same)))

    if_Left :
        (b : Bool) (m n : Proc (ImageSource × Log) (Unit {0})) (s : ImageSource × Log)
        → Left env (m s).1.1
        → Left env (n s).1.1
        → Left env ((if b then m else n) s).1.1
    if_Left true m n s h k = h
    if_Left false m n s h k = k

    dump_by_type-Left :
        (target : String) (s : ImageSource × Log)
        → Even s.1
        → Left env (dump_by_type env parts sync target s).1.1
    unfolding dump_by_type
    dump_by_type-Left target (source, w) h =
        if_Left (source.src_type == "oci") (dump_image env parts target) _ (source, w)
          (inl (dump_image-Even target (source, w) h))
          (if_Left (source.src_type == "dir") (dump_dir env parts sync target) _ (source, w)
            (dump_dir-Left target source w h)
            (if_Left (source.src_type == "file") (dump_file env parts sync target) _ (source, w)
              (dump_file-Left target source w h) (inl h)))

    -- `DumpSource` of any source, where the calls that copy, extract and verify do not mount or unmount at
    -- the directory of sources, and the mounter calls no mounted directory unmounted without an error.
    -- From a state where nothing is mounted there, nothing is mounted there at the end, whatever fails, or
    -- the last of all calls is one that fails: an unmount, or the check before it, whose error the code
    -- ignores.
    pub dump_source-Left :
        (target : String) (source : ImageSource) (w : Log)
        → Even w
        → Left env (dump_source env parts target (some sync) (source, w)).1.1
    unfolding dump_source
    dump_source-Left target source w h =
        after_target (env.mkdir_all w target) (source, made_dir target (env.mkdir_all w target) ∷ w)
          h
      where
        after_target :
            (e : Option Error) (s : ImageSource × Log)
            → Even s.1
            → Left env
                (then_do
                  (λ done. dump_by_type env parts sync target)
                  (
                    elim e as (λ _. Result (Unit {0})) [
                      | none ↦ ok tt
                      | some failure ↦ err failure
                    ],
                    s,
                  )).1.1
        after_target none s h = dump_by_type-Left target s h
        after_target (some e) s h = inl h
