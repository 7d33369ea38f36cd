-- ===== src/Snapshotter/Btrfs/Found.antt =====
-- pkg/snapshotter/btrfs-backend.go: what a probe answers, and what it leaves in the backend.
use mathlib.Core.Path.{subst}
use elemental_toolkit.Base.{
  ℕ, String, ◌≡◌, refl, sym, ◌∙◌, ◌⊎◌, inl, inr, Bool, true, false, ◌||◌, Option, none, some, ◌∷◌,
  [], ltb, ◌==◌, nat_eq, string_eq, if◌then◌else◌, Bool-cases,
}
use elemental_toolkit.Base.Text.{trim_space, split_lines}
use elemental_toolkit.Base.Outcome.{Error, Result, ok, err, panic}
use elemental_toolkit.Base.Proc.{
  Proc, pure, raise, value_or_fail, inside, ◌>>=◌, >>=-eq-ok, with_state, then_do,
}
use elemental_toolkit.System.{Env, Log, run, asked}
use elemental_toolkit.Snapshotter.LoopDevice.{is_mode}
use elemental_toolkit.Snapshotter.Btrfs.{BtrfsBackend, BtrfsSubvol, get_active_snapshot}
use elemental_toolkit.Snapshotter.Btrfs.Probe.{
  BackendStat, StateMount, read_mounts, set_active_id, stat_unmounted, both_found, find_state_mount,
  get_state_subvolumes, probe_active, is_installed, probe_mounts, probe,
}

-- A guard on two conditions that is passed.
guarded :
    (a c : Bool) (e : Error) (found : StateMount) (w : Log) {r : StateMount} {w' : Log}
    → (if a || c then raise {W = Log} e else pure found) w ≡ (ok r, w')
    → (a ≡ false) × (c ≡ false) × (found ≡ r)
guarded true c e found w h = cc
guarded false true e found w h = cc
guarded false false e found w h = (refl, refl, cc)

both_found-eq-ok :
    (env : Env) (out : String) (found : StateMount) (w : Log) {r : StateMount} {w' : Log}
    → both_found env out found w ≡ (ok r, w')
    → ((r.mounted_root == "") ≡ false) × ((r.mounted_state == "") ≡ false)
both_found-eq-ok env out found w h =
    let (state, root, same) =
      guarded (found.mounted_state == "") (found.mounted_root == "") _ found w h in
    (rw (← same) root, rw (← same) state)

find_state_mount-eq-ok :
    (env : Env) (device : String) (w : Log) {r : StateMount} {w' : Log}
    → find_state_mount env device w ≡ (ok r, w')
    → ((r.mounted_root == "") ≡ false) × ((r.mounted_state == "") ≡ false)
unfolding find_state_mount
find_state_mount-eq-ok env device w h =
    let (out, e₁, h₁) =
      >>=-eq-ok (value_or_fail (run env "findmnt" ("-lno" ∷ "SOURCE,TARGET" ∷ device ∷ []))) _ w
        h in
    let (found, e₂, h₂) =
      >>=-eq-ok
        (read_mounts (split_lines (trim_space out))
          (record { mounted_root = ""; mounted_state = ""; mounted_id = 0 }))
        _ _ h₁ in
    both_found-eq-ok env out found _ h₂

-- The active snapshot `id` after the volumes were found: the one that the default volume leads to, if that has
-- one, else the one that was known before.
abbrev Activated :
    Env → String → Option BtrfsSubvol × Option BtrfsSubvol → Log → ℕ → ℕ → Log → Type 0
Activated env mount_point (some root, some snapshots) w kept id w' =
    (n : ℕ) × (get_active_snapshot env mount_point w ≡ (ok n, w'))
    × (id ≡ (if ltb 0 n then n else kept))
Activated env mount_point (some root, none) w kept id w' = (id ≡ kept) × (w' ≡ w)
Activated env mount_point (none, snapshots) w kept id w' = (id ≡ kept) × (w' ≡ w)

set_active_id-Activated :
    (env : Env) (mount_point : String) (root snapshots : BtrfsSubvol) (b : BtrfsBackend)
    (r : Result ℕ) (w w' : Log) {done : Unit {0}}
    → get_active_snapshot env mount_point w ≡ (r, w')
    → (then_do (λ id. set_active_id id) (r, (b, w'))).0 ≡ ok done
    → let s' = (then_do (λ id. set_active_id id) (r, (b, w'))).1 in
      (s'.0.current_id ≡ b.current_id)
      × Activated env mount_point (some root, some snapshots) w b.active_id s'.0.active_id s'.1
set_active_id-Activated env mount_point root snapshots b (ok n) w w' e h =
    elim (Bool-cases (ltb 0 n)) [
      | inl f ↦ (rw f refl, (n, e, rw f refl))
      | inr f ↦ (rw f refl, (n, e, rw f refl))
    ]
set_active_id-Activated env mount_point root snapshots b (err failure) w w' e h = cc
set_active_id-Activated env mount_point root snapshots b panic w w' e h = cc

probe_active-Activated :
    (env : Env) (mount_point : String) (volumes : Option BtrfsSubvol × Option BtrfsSubvol)
    (b : BtrfsBackend) (w : Log) {done : Unit {0}}
    → (probe_active env mount_point volumes (b, w)).0 ≡ ok done
    → let s' = (probe_active env mount_point volumes (b, w)).1 in
      (s'.0.current_id ≡ b.current_id)
      × Activated env mount_point volumes w b.active_id s'.0.active_id s'.1
unfolding probe_active
probe_active-Activated env mount_point (none, snapshots) b w h = (refl, (refl, refl))
probe_active-Activated env mount_point (some root, none) b w h = (refl, (refl, refl))
probe_active-Activated env mount_point (some root, some snapshots) b w h =
    let found = get_active_snapshot env mount_point w in
    set_active_id-Activated env mount_point root snapshots b found.0 w found.1 refl h

-- The rest of an answer, by the files that tell the mode. In passive or active mode it is what
-- `findStateMount` finds, both mount points and the current snapshot, which also `current` is. Otherwise it
-- is the given mount point, twice, and no current snapshot, and `current` is the one that was kept.
abbrev Shown : Env → String → String → Log → ℕ → BackendStat → ℕ → Type 0
Shown env device mount_point w kept stat current =
    let passive = env.exists w "/run/elemental/passive_mode" in
    let active =
      env.exists (asked "exists" "/run/elemental/passive_mode" ∷ w) "/run/elemental/active_mode" in
    (((passive ≡ true) ⊎ ((passive ≡ false) × (active ≡ true)))
      × (asked_at : Log) × (found : StateMount) × ((find_state_mount env device asked_at).0
          ≡ ok found)
      × (stat.stat_current_id ≡ found.mounted_id)
      × (current ≡ found.mounted_id)
      × (stat.root_dir ≡ found.mounted_root)
      × (stat.state_mount ≡ found.mounted_state)
      × ((stat.root_dir == "") ≡ false)
      × ((stat.state_mount == "") ≡ false))
    ⊎ ((passive ≡ false)
        × (active ≡ false)
        × (stat.stat_current_id ≡ 0)
        × (current ≡ kept)
        × (stat.root_dir ≡ mount_point)
        × (stat.state_mount ≡ mount_point))

mounted_answer :
    (env : Env) (device : String) (s : BtrfsBackend × Log) {stat : BackendStat}
    {s' : BtrfsBackend × Log}
    → probe_mounts env device s ≡ (ok stat, s')
    → (s'.0.active_id ≡ s.0.active_id)
      × (stat.stat_active_id ≡ s.0.active_id)
      × (asked_at : Log) × (found : StateMount) × ((find_state_mount env device asked_at).0
          ≡ ok found)
      × (stat.stat_current_id ≡ found.mounted_id)
      × (s'.0.current_id ≡ found.mounted_id)
      × (stat.root_dir ≡ found.mounted_root)
      × (stat.state_mount ≡ found.mounted_state)
      × ((stat.root_dir == "") ≡ false)
      × ((stat.state_mount == "") ≡ false)
unfolding probe_mounts
mounted_answer env device (b, w) {stat} {s'} h =
    let (found, e₁, h₁) = >>=-eq-ok (inside (find_state_mount env device)) _ (b, w) h in
    let (root, state) =
      find_state_mount-eq-ok env device w (with_state (find_state_mount env device w) e₁) in
    let same : stat ≡ record {
      stat_active_id = b.active_id;
      stat_current_id = found.mounted_id;
      root_dir = found.mounted_root;
      state_mount = found.mounted_state;
    } =
      cc in
    let left : s'
        ≡ (record b { current_id = found.mounted_id }, (find_state_mount env device w).1) =
      cc in
    rw (same, left) (refl, refl, w, found, e₁, refl, refl, refl, refl, root, state)

unmounted_answer :
    (mount_point : String) (s : BtrfsBackend × Log) {stat : BackendStat} {s' : BtrfsBackend × Log}
    → stat_unmounted mount_point s ≡ (ok stat, s')
    → (s'.0.active_id ≡ s.0.active_id)
      × (stat.stat_active_id ≡ s.0.active_id)
      × (stat.stat_current_id ≡ 0)
      × (s'.0.current_id ≡ s.0.current_id)
      × (stat.root_dir ≡ mount_point)
      × (stat.state_mount ≡ mount_point)
unmounted_answer mount_point (b, w) {stat} {s'} h =
    let same : stat ≡ record {
      stat_active_id = b.active_id;
      stat_current_id = 0;
      root_dir = mount_point;
      state_mount = mount_point;
    } =
      cc in
    let left : s' ≡ (b, w) = cc in rw (same, left) (refl, refl, refl, refl, refl, refl)

-- What follows the search for the active snapshot.
abbrev rest_of : Env → String → String → Proc (BtrfsBackend × Log) BackendStat
rest_of env device mount_point = inside (is_installed env) >>= λ installed.
    if installed then probe_mounts env device else stat_unmounted mount_point

rest_of-Shown :
    (env : Env) (device mount_point : String) (b : BtrfsBackend) (w : Log) {stat : BackendStat}
    {s' : BtrfsBackend × Log}
    → rest_of env device mount_point (b, w) ≡ (ok stat, s')
    → (s'.0.active_id ≡ b.active_id)
      × (stat.stat_active_id ≡ b.active_id)
      × Shown env device mount_point w b.current_id stat s'.0.current_id
unfolding is_mode
rest_of-Shown env device mount_point b w {stat} {s'} h =
    let passive : String = "/run/elemental/passive_mode" in
    let active : String = "/run/elemental/active_mode" in
    let w₁ = asked "exists" passive ∷ w in
    elim (Bool-cases (env.exists w passive)) [
      | inl e ↦
          let r = mounted_answer env device (b, w₁) (rw e at h) in
          (r.0, r.1, inl (inl e, r.2, r.3, r.4, r.5, r.6, r.7, r.8, r.9, r.10))
      | inr e ↦ elim (Bool-cases (env.exists w₁ active)) [
        | inl f ↦
            let r = mounted_answer env device (b, asked "exists" active ∷ w₁) (rw (e, f) at h) in
            (r.0, r.1, inl (inr (e, f), r.2, r.3, r.4, r.5, r.6, r.7, r.8, r.9, r.10))
        | inr f ↦
            let r = unmounted_answer mount_point (b, asked "exists" active ∷ w₁) (rw (e, f) at h) in
            (r.0, r.1, inr (e, f, r.2, r.3, r.4, r.5))
      ]
    ]

-- What a successful probe of `b` gives: the answer and the backend that it leaves.
abbrev pub Answered :
    Env → String → String → Log → BtrfsBackend → BackendStat → BtrfsBackend → Type 0
Answered env device mount_point w b stat b' =
    (volumes : Option BtrfsSubvol × Option BtrfsSubvol) × (found_at : Log) × (get_state_subvolumes
        env mount_point w
      ≡ (ok volumes, found_at))
    × (asked_at : Log) × Activated env mount_point volumes found_at b.active_id b'.active_id
        asked_at
    × (stat.stat_active_id ≡ b'.active_id)
    × Shown env device mount_point asked_at b.current_id stat b'.current_id

-- A successful probe has found the volumes of the partition. It answers with the active snapshot of the
-- backend, read where the state and the snapshots' volume are both there, and in passive or active mode
-- with the mounts and the current snapshot that it finds, which stays in the backend; in no such mode
-- with the given mount point and no current snapshot, and the one of the backend stays.
pub probe-Answered :
    (env : Env) (device mount_point : String) (b : BtrfsBackend) (w : Log) (stat : BackendStat)
    (b' : BtrfsBackend) (w' : Log)
    → probe env device mount_point (b, w) ≡ (ok stat, (b', w'))
    → Answered env device mount_point w b stat b'
unfolding probe
probe-Answered env device mount_point b w stat b' w' h =
    let (volumes, e₁, h₁) = >>=-eq-ok (inside (get_state_subvolumes env mount_point)) _ (b, w) h in
    let found_at = (get_state_subvolumes env mount_point w).1 in
    let (done, e₂, h₂) = >>=-eq-ok (probe_active env mount_point volumes) _ _ h₁ in
    let (kept, activated) = probe_active-Activated env mount_point volumes b found_at e₂ in
    let s = (probe_active env mount_point volumes (b, found_at)).1 in
    let (same, told, shown) = rest_of-Shown env device mount_point s.0 s.1 h₂ in
    (
      volumes,
      found_at,
      with_state (get_state_subvolumes env mount_point w) e₁,
      s.1,
      rw same activated,
      told ∙ sym same,
      subst (λ k. Shown env device mount_point s.1 k stat b'.current_id) kept shown,
    )
