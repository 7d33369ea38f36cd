-- ===== src/Snapshotter/Btrfs/Fresh.antt =====
-- pkg/snapshotter/btrfs-backend.go: the numbers of new snapshots.
use elemental_toolkit.Base.{
  ℕ, ◌+◌, ◌^◌, ◌≤◌, ◌<◌, String, ◌≡◌, refl, sym, ◌∙◌, false, List, [], ◌∷◌, All, ltb, ◌==◌, nat_eq,
  arith, if◌then◌else◌,
}
use elemental_toolkit.Base.Outcome.{ok}
use elemental_toolkit.Base.Proc.{>>=-eq-ok}
use elemental_toolkit.System.{Env, Log}
use elemental_toolkit.Snapshotter.Btrfs.{
  BtrfsBackend, greatest, list_snapshots, above, next_of_all, compute_new_id,
}
use elemental_toolkit.Base.{◌<>◌}
use elemental_toolkit.Base.Text.{join, decimal}
use elemental_toolkit.Base.Proc.{or_fail, with_state}
use elemental_toolkit.System.{mkdir_all}
use elemental_toolkit.Snapshotter.{Snapshot}
use elemental_toolkit.Snapshotter.Btrfs.{Xml, info_path, snapshot_path, new_snapper_snapshot_xml}
use elemental_toolkit.Snapshotter.Btrfs.Create.{
  create_new_snapshot, write_xml, make_first, make_next,
}

greatest-le : (m : ℕ) (ids : List ℕ) → (m ≤ greatest m ids) × All (λ id. id ≤ greatest m ids) ids
unfolding greatest
greatest-le m [] = (omega arith, tt)
greatest-le m (id ∷ rest) =
    let ih = greatest-le (if ltb m id then id else m) rest in (ground arith, (ground arith, ih.1))

All-below :
    (n : ℕ) (ids : List ℕ) (m : ℕ) → n ≡ m + 1 → All (λ id. id ≤ m) ids → All (λ id. id < n) ids
All-below n [] m e h = tt
All-below n (id ∷ rest) m e h = (omega arith, All-below n rest m e h.1)

above-lt :
    (env : Env) (ids : List ℕ) (w : Log) {n : ℕ} {w' : Log}
    → above env ids w ≡ (ok n, w')
    → All (λ id. id < n) ids
above-lt env [] w h = cc
above-lt env (id ∷ rest) w {n} h =
    let bound = greatest-le id rest in
    let e : n ≡ greatest id rest + 1 = cc in
    (omega arith, All-below n rest (greatest id rest) e bound.1)

-- With an active snapshot, the number of a new snapshot, if it is below 2 ^ 63, is above those of all
-- that are listed.
pub compute_new_id-lt :
    (env : Env) (b : BtrfsBackend) (root : String) (w : Log) (n : ℕ) (w' : Log)
    → (b.active_id == 0) ≡ false
    → compute_new_id env b root w ≡ (ok n, w')
    → n < 2 ^ 63
    → (listed : List ℕ × ℕ) × ((list_snapshots env root w).0 ≡ ok listed)
      × All (λ id. id < n) listed.0
unfolding compute_new_id next_of_all
compute_new_id-lt env b root w n w' active h small =
    let same : compute_new_id env b root w ≡ next_of_all env root w =
      rw (active, compute_new_id) refl in
    let (listed, e, h') =
      >>=-eq-ok (list_snapshots env root) (λ listed. above env listed.0) w (sym same ∙ h) in
    (listed, e, above-lt env listed.0 (list_snapshots env root w).1 h')

created :
    (env : Env) (xml : Xml) (b : BtrfsBackend) (root : String) (base : ℕ) (w : Log) {s : Snapshot}
    {w' : Log}
    → create_new_snapshot env xml b root base w ≡ (ok s, w')
    → (id : ℕ) × ((compute_new_id env b root w).0 ≡ ok id)
      × (s.id ≡ id)
      × (s.path ≡ join root (snapshot_path id))
unfolding create_new_snapshot
created env xml b root base w h =
    let (id, e₁, h₁) = >>=-eq-ok (compute_new_id env b root) _ w h in
    let (made, e₂, h₂) =
      >>=-eq-ok (or_fail (mkdir_all env (join root (".snapshots/" <> decimal id)))) _ _ h₁ in
    let (work_dir, e₃, h₃) =
      >>=-eq-ok (if base == 0 then make_first env xml root id else make_next env xml b root base id)
        _ _ h₂ in
    let (written, e₄, h₄) =
      >>=-eq-ok
        (write_xml env xml (join root (info_path id))
          (new_snapper_snapshot_xml xml.now id "first root filesystem"))
        _ _ h₃ in
    (id, e₁, cc, cc)

-- A snapshot that `CreateNewSnapshot` returns where there is an active one: its path is made of its number,
-- and the number, if it is below 2 ^ 63, is above those of all that were listed.
pub create_new_snapshot-IsFresh :
    (env : Env) (xml : Xml) (b : BtrfsBackend) (root : String) (base : ℕ) (w : Log) (s : Snapshot)
    (w' : Log)
    → (b.active_id == 0) ≡ false
    → create_new_snapshot env xml b root base w ≡ (ok s, w')
    → s.id < 2 ^ 63
    → (s.path ≡ join root (snapshot_path s.id))
      × (listed : List ℕ × ℕ) × ((list_snapshots env root w).0 ≡ ok listed)
      × All (λ id. id < s.id) listed.0
create_new_snapshot-IsFresh env xml b root base w s w' active h small =
    let (id, e, same, path) = created env xml b root base w h in
    let small' : id < 2 ^ 63 = omega arith in
    let (listed, found, all) = compute_new_id-lt env b root w id _ active (with_state _ e) small' in
    (rw same path, listed, found, rw same all)
