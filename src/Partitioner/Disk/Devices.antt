-- ===== src/Partitioner/Disk/Devices.antt =====
-- `FindPartitionDevice` waits for a device: how often, and what its answer rests on.
use elemental_toolkit.Base.{
  ℕ, zero, suc, ◌+◌, ◌≤◌, String, ◌≡◌, refl, ◌⊎◌, inl, inr, Bool, true, false, Bool-cases, [], ◌∷◌,
  arith,
}
use elemental_toolkit.System.{Env, Log, ran, asked}
use elemental_toolkit.Partitioner.Disk.{find_device}

abbrev pub looks : String → Log → ℕ
looks device [] = 0
looks device (asked what path ∷ w) = suc (looks device w)
looks device (_ ∷ w) = looks device w

-- What a search of `tries` rounds from the log `w` gives.
abbrev pub Searched : Env → ℕ → String → Log → Bool → Log → Type 0
Searched env tries device w there w' =
    ((there ≡ true)
      × (looks device w' ≤ looks device w + tries)
      × ((earlier : Log) × (w' ≡ asked "exists" device ∷ earlier)
          × (env.exists earlier device ≡ true)))
    ⊎ ((there ≡ false)
        × (looks device w' ≡ looks device w + tries)
        × ((tries ≡ 0)
            ⊎ ((earlier : Log) × (w' ≡ asked "exists" device ∷ earlier)
                × (env.exists earlier device ≡ false))))

widen :
    (env : Env) (tries : ℕ) (device : String) (w : Log) (there : Bool) (w' : Log)
    → (let w₁ = ran "udevadm" ("settle" ∷ []) (env.run w "udevadm" ("settle" ∷ [])).1 ∷ w in
        (env.exists w₁ device ≡ false) × (tries ≡ 0 → w' ≡ asked "exists" device ∷ w₁))
    → Searched env tries device
        (asked "exists" device
          ∷ ran "udevadm" ("settle" ∷ []) (env.run w "udevadm" ("settle" ∷ [])).1
          ∷ w)
        there
        w'
    → Searched env (suc tries) device w there w'
widen env tries device w there w' look (inl (found, bound, seen)) = inl (found, omega arith, seen)
widen env tries device w there w' look (inr (missing, count, inl none_left)) =
    inr (missing, omega arith, inr (_, look.1 none_left, look.0))
widen env tries device w there w' look (inr (missing, count, inr last)) =
    inr (missing, omega arith, inr last)

no_rounds :
    (env : Env) (tries : ℕ) (device : String) (w : Log)
    → tries ≡ 0
    → (find_device env tries device w).1 ≡ w
unfolding find_device
no_rounds env zero device w h = refl
no_rounds env (suc tries) device w h = absurd (omega (arith, h))

-- A search of `tries` rounds gives true after at most `tries` looks, of which the last found the
-- device, or false after `tries` looks, of which the last, where there was one, did not find it.
pub find_device_lem :
    (env : Env) (tries : ℕ) (device : String) (w : Log)
    → Searched env tries device w
        (find_device env tries device w).0
        (find_device env tries device w).1
unfolding find_device
find_device_lem env zero device w = inr (refl, omega arith, inl refl)
find_device_lem env (suc tries) device w =
    let (out, e) = env.run w "udevadm" ("settle" ∷ []) in
    let w₁ = ran "udevadm" ("settle" ∷ []) e ∷ w in
    elim (Bool-cases (env.exists w₁ device)) [
      | inl there ↦ rw (there, find_device) (inl (refl, omega arith, (w₁, refl, there)))
      | inr missing ↦
          rw (missing, find_device)
            (widen env tries device w _ _
              (missing, no_rounds env tries device (asked "exists" device ∷ w₁))
              (find_device_lem env tries device (asked "exists" device ∷ w₁)))
    ]
