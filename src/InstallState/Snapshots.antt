-- ===== src/InstallState/Snapshots.antt =====
-- What state.yaml says of the snapshots after an upgrade.
use elemental_toolkit.Base.{
  ℕ, ◌<◌, ◌≡◌, ◌≢◌, refl, sym, ap, ◌∙◌, Bool, true, false, not, ◌&&◌, ◌||◌, Option, none, some,
  List, [], ◌∷◌, All, ◌==◌, nat_eq, ==_sound, ==_refl, arith, if◌then◌else◌, Bool-cases,
  Option-cases, ◌⊎◌, inl, inr,
}
use elemental_toolkit.Base.Outcome.{ok}
use elemental_toolkit.Snapshotter.LoopDevice.{is_listed}
use elemental_toolkit.InstallState.{
  SystemState, SystemMap, lookup, set, scan, deactivate, remove, update_snapshots,
}

-- Whether the map has an entry, also one with a nil pointer.
abbrev pub has_key : ℕ → SystemMap → Bool
has_key id [] = false
has_key id ((i, s) ∷ rest) = i == id || has_key id rest

abbrev pub is_active : Option SystemState → Bool
is_active none = false
is_active (some s) = s.active

abbrev pub inactive : Option SystemState → Option SystemState
inactive none = none
inactive (some s) = some (record s { active = false })

-- No entry but that of `a` is active.
abbrev pub IsOnlyActive : ℕ → SystemMap → Type 0
IsOnlyActive a = All (λ (i, s). (not (is_active s) || i == a) ≡ true)

lookup-set :
    (id j : ℕ) (s : Option SystemState) (m : SystemMap)
    → lookup j (set id s m) ≡ (if j == id then s else lookup j m)
unfolding lookup set
lookup-set id j s [] = ground arith
lookup-set id j s ((i, t) ∷ rest) = ground (arith, lookup-set id j s rest)

lookup-remove :
    (j : ℕ) (d : List ℕ) (m : SystemMap)
    → lookup j (remove d m) ≡ (if is_listed j d then none else lookup j m)
unfolding lookup remove
lookup-remove j d [] = ground arith
lookup-remove j d ((i, t) ∷ rest) = ground (arith, lookup-remove j d rest)

lookup-deactivate :
    (id j : ℕ) (m : SystemMap)
    → lookup j (deactivate id m) ≡ (if j == id then inactive (lookup j m) else lookup j m)
unfolding deactivate
lookup-deactivate id j m = elim (Option-cases (lookup id m)) [
  | inl e ↦
      rw (e, deactivate)
        (elim (Bool-cases (j == id)) [
          | inl f ↦ rw (f, ==_sound j id f, e) refl
          | inr f ↦ rw f refl
        ])
  | inr (s, e) ↦
      rw (e, deactivate, lookup-set id j (some (record s { active = false })) m)
        (elim (Bool-cases (j == id)) [
          | inl f ↦ rw (f, ==_sound j id f, e) refl
          | inr f ↦ rw f refl
        ])
]

-- The scan's list of those that are gone.
scan-deleted :
    (j : ℕ) (present : List ℕ) (m : SystemMap) (old₀ : ℕ) (d₀ : List ℕ) {old : ℕ} {d : List ℕ}
    → scan present m old₀ d₀ ≡ ok (old, d)
    → is_listed j d ≡ (is_listed j d₀ || (has_key j m && not (is_listed j present)))
unfolding scan is_listed
scan-deleted j present [] old₀ d₀ h = ground arith
scan-deleted j present ((i, none) ∷ rest) old₀ d₀ h = cc
scan-deleted j present ((i, some s) ∷ rest) old₀ d₀ h =
    let ih =
      scan-deleted j present rest (if s.active then i else old₀)
        (if is_listed i present then d₀ else i ∷ d₀) h in
    ih ∙ (elim (Bool-cases (i == j)) [
      | inl e ↦ elim (Bool-cases (is_listed j present)) [
        | inl f ↦ rw (e, ==_sound i j e, f) (ground arith)
        | inr f ↦ rw (e, ==_sound i j e, f, ==_refl j) (ground arith)
      ]
      | inr e ↦ elim (Bool-cases (is_listed i present)) [
        | inl f ↦ rw (e, f) refl
        | inr f ↦ rw (e, f, e) refl
      ]
    ])

-- The scan ends with an entry's number, or the one that it began with.
scan-old :
    (present : List ℕ) (m : SystemMap) (old₀ : ℕ) (d₀ : List ℕ) {old : ℕ} {d : List ℕ}
    → scan present m old₀ d₀ ≡ ok (old, d)
    → (old ≡ old₀) ⊎ (has_key old m ≡ true)
unfolding scan
scan-old present [] old₀ d₀ h = inl (ground arith)
scan-old present ((i, none) ∷ rest) old₀ d₀ h = cc
scan-old present ((i, some s) ∷ rest) old₀ d₀ {old} h =
    let ih =
      scan-old present rest (if s.active then i else old₀)
        (if is_listed i present then d₀ else i ∷ d₀) h in
    ground arith

scan-IsOnlyActive :
    (a : ℕ) (present : List ℕ) (m : SystemMap) (old₀ : ℕ) (d₀ : List ℕ) {old : ℕ} {d : List ℕ}
    → scan present m old₀ d₀ ≡ ok (old, d)
    → IsOnlyActive a m
    → IsOnlyActive old m × (old₀ ≡ a → old ≡ a)
unfolding scan
scan-IsOnlyActive a present [] old₀ d₀ h k = (tt, λ e. ground arith)
scan-IsOnlyActive a present ((i, none) ∷ rest) old₀ d₀ h k = cc
scan-IsOnlyActive a present ((i, some s) ∷ rest) old₀ d₀ {old} h k =
    let (only, keeps) =
      scan-IsOnlyActive a present rest (if s.active then i else old₀)
        (if is_listed i present then d₀ else i ∷ d₀) h k.1 in
    elim (Bool-cases s.active) [
      | inl e ↦
          let i_a : i ≡ a = ground arith in
          let old_a : old ≡ a = keeps (rw e i_a) in
          ((rw (e, old_a, i_a) (==_refl a), only), λ p. old_a)
      | inr e ↦ ((rw e refl, only), λ p. keeps (rw e p))
    ]

-- What `j` is in state.yaml after the upgrade to `id`.
abbrev pub entry_after : List ℕ → ℕ → SystemState → SystemMap → ℕ → Option SystemState
entry_after present id new m j =
    if j == id then some new else if is_listed j present then inactive (lookup j m) else none

lookup-has_key : (j : ℕ) (m : SystemMap) → has_key j m ≡ false → lookup j m ≡ none
unfolding lookup
lookup-has_key j [] h = refl
lookup-has_key j ((i, s) ∷ rest) h = elim (Bool-cases (i == j)) [
  | inl e ↦ ground arith
  | inr e ↦ rw e (lookup-has_key j rest (ground arith))
]

inactive-off : (s : SystemState) → s.active ≡ false → inactive (some s) ≡ some s
inactive-off s h = ap some (ground arith)

inactive-only :
    (old j : ℕ) (m : SystemMap)
    → IsOnlyActive old m
    → (j == old) ≡ false
    → inactive (lookup j m) ≡ lookup j m
unfolding lookup
inactive-only old j [] k h = refl
inactive-only old j ((i, none) ∷ rest) k h = elim (Bool-cases (i == j)) [
  | inl e ↦ rw e refl
  | inr e ↦ rw e (inactive-only old j rest k.1 h)
]
inactive-only old j ((i, some s) ∷ rest) k h = elim (Bool-cases (i == j)) [
  | inl e ↦ rw e (inactive-off s (ground arith))
  | inr e ↦ rw e (inactive-only old j rest k.1 h)
]

abbrev pub HasNoNil : SystemMap → Type 0
HasNoNil = All (λ (i, s). s ≢ none)

scan-returns :
    (present : List ℕ) (m : SystemMap) (old₀ : ℕ) (d₀ : List ℕ)
    → HasNoNil m
    → (old : ℕ) × (d : List ℕ) × (scan present m old₀ d₀ ≡ ok (old, d))
unfolding scan
scan-returns present [] old₀ d₀ k = (old₀, d₀, refl)
scan-returns present ((i, none) ∷ rest) old₀ d₀ k = absurd (k.0 refl)
scan-returns present ((i, some s) ∷ rest) old₀ d₀ k =
    scan-returns present rest (if s.active then i else old₀)
      (if is_listed i present then d₀ else i ∷ d₀) k.1

old-fresh :
    (id old : ℕ) (m : SystemMap)
    → (old ≡ 0) ⊎ (has_key old m ≡ true)
    → 0 < id
    → has_key id m ≡ false
    → (id == old) ≡ false
old-fresh id old m (inl e) pos fresh = ground arith
old-fresh id old m (inr e) pos fresh = elim (Bool-cases (id == old)) [
  | inl f ↦ let same : id ≡ old = ==_sound id old f in absurd cc
  | inr f ↦ f
]

-- `upgradeInstallStateYaml` of a map without nil pointers and a snapshot with a positive number and no
-- entry yet, where at most one snapshot was active, does not panic: the new entry is there as it was
-- built, each older snapshot that the snapshotter lists has its entry but is not active, and no other
-- entry is left.
pub update_snapshots_lem :
    (present : List ℕ) (id : ℕ) (new : SystemState) (m : SystemMap) (a j : ℕ)
    → HasNoNil m
    → 0 < id
    → has_key id m ≡ false
    → IsOnlyActive a m
    → (m' : SystemMap) × (update_snapshots present id new m ≡ ok m')
      × (lookup j m' ≡ entry_after present id new m j)
unfolding update_snapshots
update_snapshots_lem present id new m a j values pos fresh only =
    let (old, d, e) = scan-returns present m 0 [] values in
    let gone : is_listed j d ≡ (has_key j m && not (is_listed j present)) =
      unfold is_listed in scan-deleted j present m 0 [] e in
    let older = scan-IsOnlyActive a present m 0 [] e only in
    let start = scan-old present m 0 [] e in
    (
      remove d (deactivate old (set id (some new) m)),
      rw (e, update_snapshots) refl,
      rw
          (
            lookup-remove j d (deactivate old (set id (some new) m)),
            lookup-deactivate old j (set id (some new) m),
            lookup-set id j (some new) m,
          )
          (elim (Bool-cases (j == id)) [
            | inl f ↦
                let same : j ≡ id = ==_sound j id f in
                let unlisted : is_listed j d ≡ false = gone ∙ rw (same, fresh) refl in
                let not_old : (j == old) ≡ false = rw same (old-fresh id old m start pos fresh) in
                rw (unlisted, not_old, f) refl
            | inr f ↦ elim (Bool-cases (is_listed j present)) [
              | inl g ↦
                  let kept : is_listed j d ≡ false = gone ∙ rw g (ground arith) in
                  elim (Bool-cases (j == old)) [
                    | inl k ↦ rw (kept, k, f, g) refl
                    | inr k ↦ rw (kept, k, f, g) (sym (inactive-only old j m older.0 k))
                  ]
              | inr g ↦ elim (Bool-cases (has_key j m)) [
                | inl k ↦
                    let dropped : is_listed j d ≡ true = gone ∙ rw (g, k) refl in
                    rw (dropped, f, g) refl
                | inr k ↦ rw (f, g, lookup-has_key j m k) (ground arith)
              ]
            ]
          ]),
    )
