-- ===== src/Snapshotter/LoopDevice/Fresh.antt =====
-- `StartTransaction` takes a number above those of all snapshots.
use elemental_toolkit.Base.{
  ℕ, ◌+◌, ◌^◌, ◌≤◌, ◌<◌, String, ◌≡◌, true, List, [], ◌∷◌, All, ltb, arith, if◌then◌else◌,
}
use elemental_toolkit.Base.Outcome.{ok}
use elemental_toolkit.Base.Proc.{inside, >>=-eq-ok, with_state}
use elemental_toolkit.System.{Env, Log, asked}
use elemental_toolkit.Snapshotter.{Snapshot}
use elemental_toolkit.Snapshotter.LoopDevice.{
  LoopDevice, Parts, snaps_path, ids_of, get_snapshots, is_snapshot_in_use, scan_ids,
  get_next_snapshot_id,
}
use elemental_toolkit.Snapshotter.LoopDevice.Transaction.{
  read_active, record_active, make_room, describe, new_snapshot, start_transaction,
}

All-lt : (id n : ℕ) (l : List ℕ) → n ≡ id + 1 → All (λ i. i ≤ id) l → All (λ i. i < n) l
All-lt id n [] e h = tt
All-lt id n (i ∷ l) e h = (omega arith, All-lt id n l e h.1)

module _ (env : Env) where
  -- The scan ends with the greatest of the start and the identifiers.
  scan_ids-le :
      (l : List ℕ) (id : ℕ) (s : LoopDevice × Log) {n : ℕ} {s' : LoopDevice × Log}
      → scan_ids env l id s ≡ (ok n, s')
      → (id ≤ n) × All (λ i. i ≤ n) l
  unfolding scan_ids
  scan_ids-le [] id s h = (ground arith, tt)
  scan_ids-le (i ∷ rest) id s {n} h =
      let (in_use, e, h') = >>=-eq-ok (inside (is_snapshot_in_use env i)) _ s h in
      let ih = scan_ids-le rest (if ltb id i then i else id) _ h' in
      (ground arith, (ground arith, ih.1))

  -- What `getNextSnapshotID` reads.
  abbrev pub listed : String → Log → List ℕ
  listed root w = ids_of (env.read_dir (asked "exists" (snaps_path root) ∷ w) (snaps_path root)).0

  get_snapshots-eq-ok :
      (root : String) (w : Log) {ids : List ℕ}
      → (get_snapshots env root w).0 ≡ ok ids
      → ids ≡ listed root w
  unfolding get_snapshots
  get_snapshots-eq-ok root w h = ground arith

  next-lt :
      (s : LoopDevice × Log) {n : ℕ} {s' : LoopDevice × Log}
      → get_next_snapshot_id env s ≡ (ok n, s')
      → All (λ i. i < n) (listed s.0.root_dir s.1)
  unfolding get_next_snapshot_id
  next-lt s {n} h =
      let (ids, e₁, h₁) =
        >>=-eq-ok (λ (l, w). inside (get_snapshots env l.root_dir) (l, w)) _ s h in
      let (id, e₂, h₂) = >>=-eq-ok (scan_ids env ids 0) _ _ h₁ in
      let all = scan_ids-le ids 0 _ (with_state _ e₂) in
      let found : ids ≡ listed s.0.root_dir s.1 = get_snapshots-eq-ok s.0.root_dir s.1 e₁ in
      let n_id : n ≡ id + 1 = cc in rw (← found) (All-lt id n ids n_id all.1)

module _ (env : Env) (parts : Parts) where
  described :
      (next : ℕ) (s : LoopDevice × Log) {snapshot : Snapshot} {s' : LoopDevice × Log}
      → describe env parts next s ≡ (ok snapshot, s')
      → (snapshot.in_progress ≡ true) × (snapshot.id ≡ next)
  unfolding describe new_snapshot
  described next s h = ground arith

  -- A snapshot that `StartTransaction` returns is in progress, and its number, if it is below 2 ^ 63, is
  -- above each number that it found in the snapshots' directory.
  pub start_transaction-IsFresh :
      (s : LoopDevice × Log) (snapshot : Snapshot) (s' : LoopDevice × Log)
      → start_transaction env parts s ≡ (ok snapshot, s')
      → snapshot.id < 2 ^ 63
      → (snapshot.in_progress ≡ true) × All (λ i. i < snapshot.id) (listed env s.0.root_dir s.1)
  unfolding start_transaction
  start_transaction-IsFresh s snapshot s' h small =
      let (next, e₁, h₁) = >>=-eq-ok (get_next_snapshot_id env) _ s h in
      let (active, e₂, h₂) = >>=-eq-ok (read_active env parts) _ _ h₁ in
      let (done, e₃, h₃) = >>=-eq-ok (record_active env parts active) _ _ h₂ in
      let (made, e₄, h₄) = >>=-eq-ok (make_room env parts next) _ _ h₃ in
      let (open_now, id) = described next _ h₄ in
      (open_now, rw id (next-lt env s (with_state _ e₁)))
