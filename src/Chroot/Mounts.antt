-- ===== src/Chroot/Mounts.antt =====
-- Bind mounts of a chroot: what is mounted by it and not unmounted is what its list names.
use mathlib.Core.List.{reverse, reverse-cons}
use elemental_toolkit.Base.{
  ℕ, ◌+◌, String, ◌≡◌, refl, Bool, Option, none, some, List, [], ◌∷◌, ◌++◌, ◌==◌, string_eq,
  if◌then◌else◌, arith, List-cases, Option-cases, inl, inr,
}
use elemental_toolkit.Base.Outcome.{Error}
use elemental_toolkit.System.{
  Env, Log, Act, ran, mounted, unmounted, made_dir, changed_dir, changed_root, asked,
}
use elemental_toolkit.Chroot.{
  Chroot, add_failure, left_open, unless_failed, first_error, bind_all, unmount_all, close, prepare,
  in_root, restore_root, with_mounts, run_callback, chrooted_callback, binds, mount_point,
  set_extra_mounts, new_chroot,
}

-- How often a path is in a list.
abbrev pub times : String → List String → ℕ
times t [] = 0
times t (x ∷ rest) = (if x == t then 1 else 0) + times t rest

-- How often a path was mounted, and how often unmounted, with success.
abbrev pub mounts : String → Log → ℕ
mounts t [] = 0
mounts t (mounted source target fstype options none ∷ w) =
    (if target == t then 1 else 0) + mounts t w
mounts t (_ ∷ w) = mounts t w

abbrev pub unmounts : String → Log → ℕ
unmounts t [] = 0
unmounts t (unmounted target none ∷ w) = (if target == t then 1 else 0) + unmounts t w
unmounts t (_ ∷ w) = unmounts t w

-- Each path is mounted as often as the list names it.
abbrev pub Balanced : String → Log → List String → Type 0
Balanced t w active = mounts t w ≡ unmounts t w + times t active

times-append : (t : String) (l k : List String) → times t (l ++ k) ≡ times t l + times t k
times-append t [] k = omega arith
times-append t (x ∷ l) k = omega (arith, times-append t l k)

times-reverse : (t : String) (l : List String) → times t (reverse l) ≡ times t l
times-reverse t [] = refl
times-reverse t (x ∷ l) =
    rw (reverse-cons x l) (omega (arith, times-reverse t l, times-append t (reverse l) (x ∷ [])))

unless_failed_lem {ℓ} :
    {A : Type ℓ} (P : A → Type 0) (e : Option Error) (handle : Error → A) (rest : A)
    → ((failure : Error) → P (handle failure))
    → P rest
    → P (unless_failed e handle rest)
unless_failed_lem P none handle rest h k = k
unless_failed_lem P (some e) handle rest h k = h e

module _ (env : Env) (t : String) where
  abbrev pub IsBalanced : (Option Error × Chroot) × Log → Type 0
  IsBalanced r = Balanced t r.1 r.0.1.active_mounts

  -- One round of the loop, for any answer `e` to the call; `kept` counts mounts that are not in the list.
  unmounted-Balanced :
      (x : String) (rest : List String) (w : Log) (kept : ℕ) (e : Option Error)
      → ((w' : Log) (kept' : ℕ)
          → mounts t w' ≡ unmounts t w' + (times t rest + kept')
          → mounts t (unmount_all env rest w').1
            ≡ unmounts t (unmount_all env rest w').1
              + (times t (unmount_all env rest w').0 + kept'))
      → mounts t w ≡ unmounts t w + (times t (x ∷ rest) + kept)
      → mounts t (unmount_all env rest (unmounted x e ∷ w)).1
        ≡ unmounts t (unmount_all env rest (unmounted x e ∷ w)).1
          + (times t (add_failure e x (unmount_all env rest (unmounted x e ∷ w)).0) + kept)
  unmounted-Balanced x rest w kept none ih h = ih (unmounted x none ∷ w) kept (omega arith)
  unmounted-Balanced x rest w kept (some e) ih h =
      let all = ih (unmounted x (some e) ∷ w) ((if x == t then 1 else 0) + kept) (omega arith) in
      omega arith

  unmount_all-Balanced :
      (l : List String) (w : Log) (kept : ℕ)
      → mounts t w ≡ unmounts t w + (times t l + kept)
      → mounts t (unmount_all env l w).1
        ≡ unmounts t (unmount_all env l w).1 + (times t (unmount_all env l w).0 + kept)
  unfolding unmount_all
  unmount_all-Balanced [] w kept h = h
  unmount_all-Balanced (x ∷ rest) w kept h =
      unmounted-Balanced x rest w kept (env.unmount w x) (unmount_all-Balanced rest) h

  close_left :
      (c : Chroot) (failures : List String) → (left_open c failures).1.active_mounts ≡ failures
  close_left c [] = refl
  close_left c (f ∷ rest) = refl

  pub close-Balanced :
      (c : Chroot) (w : Log)
      → Balanced t w c.active_mounts
      → Balanced t (close env c w).1 (close env c w).0.1.active_mounts
  unfolding close
  close-Balanced c w h =
      let w₁ : Log = ran "sync" [] (env.run w "sync" []).1 ∷ w in
      let l = reverse c.active_mounts in
      let all = unmount_all-Balanced l w₁ 0 (omega (arith, times-reverse t c.active_mounts)) in
      rw (close_left c (unmount_all env l w₁).0) (omega arith)

  -- One round of the loops of `Prepare`, for any answers to its two calls.
  bound-Balanced :
      (c : Chroot) (w₁ w₂ : Log) (next : (Option Error × Chroot) × Log) (e₁ e₂ : Option Error)
      → Balanced t w₁ c.active_mounts
      → ((e : Error) → e₂ ≡ some e → Balanced t w₂ c.active_mounts)
      → (e₂ ≡ none → Balanced t next.1 next.0.1.active_mounts)
      → Balanced t
          (unless_failed e₁
            (λ e. ((some e, c), w₁))
            (unless_failed e₂ (λ e. ((some e, c), w₂)) next)).1
          (unless_failed e₁
            (λ e. ((some e, c), w₁))
            (unless_failed e₂ (λ e. ((some e, c), w₂)) next)).0.1.active_mounts
  bound-Balanced c w₁ w₂ next (some e) e₂ h k m = h
  bound-Balanced c w₁ w₂ next none (some e) h k m = k e refl
  bound-Balanced c w₁ w₂ next none none h k m = m refl

  bind_all-Balanced :
      (l : List (String × String)) (c : Chroot) (w : Log)
      → Balanced t w c.active_mounts
      → Balanced t (bind_all env l c w).1 (bind_all env l c w).0.1.active_mounts
  unfolding bind_all
  bind_all-Balanced [] c w h = h
  bind_all-Balanced ((source, inside) ∷ rest) c w h =
      let target = mount_point c inside in
      let e₁ = env.mkdir_all w target in
      let w₁ : Log = made_dir target e₁ ∷ w in
      let e₂ = env.mount w₁ source target "bind" ("bind" ∷ []) in
      let w₂ : Log = mounted source target "bind" ("bind" ∷ []) e₂ ∷ w₁ in
      let c' = record c { active_mounts = c.active_mounts ++ (target ∷ []) } in
      bound-Balanced c w₁ w₂ (bind_all env rest c' w₂) e₁ e₂ h (λ e failed. rw failed h)
        (λ done.
          bind_all-Balanced rest c' w₂
            (rw done (omega (arith, times-append t c.active_mounts (target ∷ [])))))

  prepare-Balanced :
      (c : Chroot) (w : Log)
      → Balanced t w c.active_mounts
      → Balanced t (prepare env c w).1 (prepare env c w).0.1.active_mounts
  unfolding prepare
  prepare-Balanced c w h = elim (List-cases c.active_mounts) [
    | inr (m, rest, e) ↦ rw (e, prepare) h
    | inl e ↦
        let bound = bind_all env (binds c) c w in
        let closed = close env bound.0.1 bound.1 in
        let all = bind_all-Balanced (binds c) c w h in
        rw (e, prepare)
          (unless_failed_lem IsBalanced bound.0.0
            (λ failure. ((some failure, closed.0.1), closed.1)) ((none, bound.0.1), bound.1)
            (λ failure. close-Balanced bound.0.1 bound.1 all) all)
  ]

  restore_root-Balanced :
      (err : Option Error) (active : List String) (w : Log)
      → Balanced t w active
      → Balanced t (restore_root env err w).1 active
  unfolding restore_root
  restore_root-Balanced err active w h = elim (Option-cases (env.chdir w "old root")) [
    | inl e ↦ rw (e, restore_root) h
    | inr (failure, e) ↦ rw (e, restore_root) h
  ]

  -- The steps in and out of the root mount and unmount nothing themselves.
  in_root-Balanced :
      (path : String) (callback : Act (Option Error)) (active : List String) (w : Log)
      → ((w' : Log) → Balanced t w' active → Balanced t (callback w').1 active)
      → Balanced t w active
      → Balanced t (in_root env path callback w).1 active
  unfolding in_root
  in_root-Balanced path callback active w k h =
      let P : Option Error × Log → Type 0 = λ r. Balanced t r.1 active in
      let e₁ = env.chdir w path in
      let w₁ : Log = changed_dir path e₁ ∷ w in
      let e₂ = env.chroot w₁ path in
      let w₂ : Log = changed_root path e₂ ∷ w₁ in
      let restored = restore_root env (callback w₂).0 (callback w₂).1 in
      unless_failed_lem P e₁ (λ e. (some e, w₁)) (unless_failed e₂ (λ e. (some e, w₂)) restored)
        (λ e. h)
        (unless_failed_lem P e₂ (λ e. (some e, w₂)) restored (λ e. h)
          (restore_root-Balanced (callback w₂).0 active (callback w₂).1 (k w₂ h)))

  with_mounts-Balanced :
      (c : Chroot) (callback : Act (Option Error)) (w : Log)
      → ((active : List String) (w' : Log)
          → Balanced t w' active
          → Balanced t (callback w').1 active)
      → Balanced t w c.active_mounts
      → IsBalanced (with_mounts env c callback w)
  unfolding with_mounts
  with_mounts-Balanced c callback w k h = elim (List-cases c.active_mounts) [
    | inr (m, rest, e) ↦
        rw (e, with_mounts)
          (in_root-Balanced c.path callback c.active_mounts w (k c.active_mounts) h)
    | inl e ↦
        let ready = prepare env c w in
        let ran_in = in_root env ready.0.1.path callback ready.1 in
        let closed = close env ready.0.1 ran_in.1 in
        let all = prepare-Balanced c w h in
        rw (e, with_mounts)
          (unless_failed_lem IsBalanced ready.0.0 (λ failure. ((some failure, ready.0.1), ready.1))
            ((first_error ran_in.0 closed.0.0, closed.0.1), closed.1) (λ failure. all)
            (close-Balanced ready.0.1 ran_in.1 (
              in_root-Balanced ready.0.1.path callback ready.0.1.active_mounts ready.1
                (k ready.0.1.active_mounts) all)))
  ]

  -- Through `RunCallback`, whatever fails, each path stays mounted exactly as often as the chroot's list
  -- of active mounts names it, counted over the calls in the log, if the callback itself keeps this.
  pub run_callback-Balanced :
      (c : Chroot) (callback : Act (Option Error)) (w : Log)
      → ((active : List String) (w' : Log)
          → Balanced t w' active
          → Balanced t (callback w').1 active)
      → Balanced t w c.active_mounts
      → IsBalanced (run_callback env c callback w)
  unfolding run_callback
  run_callback-Balanced c callback w k h =
      let (current, e₀) = env.getwd w in
      let w₁ : Log = asked "getwd" "" ∷ w in
      let e₁ = env.open_root w₁ in
      let w₂ : Log = asked "open" "/" ∷ w₁ in
      let moved = env.chdir w₂ current in
      let r = with_mounts env c callback w₂ in
      let back = env.chdir r.1 current in
      let done : (Option Error × Chroot) × Log =
        ((first_error r.0.0 back, r.0.1), changed_dir current back ∷ r.1) in
      let stop : Error → (Option Error × Chroot) × Log =
        λ e. ((some e, c), changed_dir current moved ∷ w₂) in
      unless_failed_lem IsBalanced e₀ (λ e. ((some e, c), w₁)) (unless_failed e₁ stop done) (λ e. h)
        (unless_failed_lem IsBalanced e₁ stop done (λ e. h)
          (with_mounts-Balanced c callback w₂ k h))

module _ (env : Env) where
  abbrev IsClosed : (Option Error × Chroot) × Log → Type 0
  IsClosed r = r.0.0 ≡ none → r.0.1.active_mounts ≡ []

  first_error-eq-none : (a b : Option Error) → first_error a b ≡ none → b ≡ none
  first_error-eq-none none b h = h
  first_error-eq-none (some e) b h = cc

  first_error-eq-none₀ : (a b : Option Error) → first_error a b ≡ none → a ≡ none
  first_error-eq-none₀ none b h = refl
  first_error-eq-none₀ (some e) b h = cc

  left_open-eq-none :
      (c : Chroot) (failures : List String)
      → (left_open c failures).0 ≡ none
      → (left_open c failures).1.active_mounts ≡ []
  left_open-eq-none c [] h = refl
  left_open-eq-none c (f ∷ rest) h = cc

  with_mounts-IsClosed :
      (c : Chroot) (callback : Act (Option Error)) (w : Log)
      → c.active_mounts ≡ []
      → IsClosed (with_mounts env c callback w)
  unfolding with_mounts close
  with_mounts-IsClosed c callback w e =
      let ready = prepare env c w in
      let ran_in = in_root env ready.0.1.path callback ready.1 in
      let closed = close env ready.0.1 ran_in.1 in
      rw (e, with_mounts)
        (unless_failed_lem IsClosed ready.0.0 (λ failure. ((some failure, ready.0.1), ready.1))
          ((first_error ran_in.0 closed.0.0, closed.0.1), closed.1) (λ failure h. cc)
          (λ h. left_open-eq-none ready.0.1 _ (first_error-eq-none ran_in.0 closed.0.0 h)))

  run_callback-IsClosed :
      (c : Chroot) (callback : Act (Option Error)) (w : Log)
      → c.active_mounts ≡ []
      → IsClosed (run_callback env c callback w)
  unfolding run_callback
  run_callback-IsClosed c callback w empty =
      let (current, e₀) = env.getwd w in
      let w₁ : Log = asked "getwd" "" ∷ w in
      let e₁ = env.open_root w₁ in
      let w₂ : Log = asked "open" "/" ∷ w₁ in
      let moved = env.chdir w₂ current in
      let r = with_mounts env c callback w₂ in
      let back = env.chdir r.1 current in
      let done : (Option Error × Chroot) × Log =
        ((first_error r.0.0 back, r.0.1), changed_dir current back ∷ r.1) in
      let stop : Error → (Option Error × Chroot) × Log =
        λ e. ((some e, c), changed_dir current moved ∷ w₂) in
      unless_failed_lem IsClosed e₀ (λ e. ((some e, c), w₁)) (unless_failed e₁ stop done)
        (λ e h. empty)
        (unless_failed_lem IsClosed e₁ stop done (λ e h. empty)
          (λ h. with_mounts-IsClosed c callback w₂ empty (first_error-eq-none₀ r.0.0 back h)))

  -- A `ChrootedCallback` that returns no error has unmounted all that it mounted: a path that was
  -- mounted as often as unmounted before is so afterwards, if the callback itself keeps such balances.
  pub chrooted_callback-unmounts :
      (path : String) (bind_mounts : List (String × String)) (callback : Act (Option Error))
      (no_default_binds : Bool) (w : Log) (t : String)
      → ((active : List String) (w' : Log)
          → Balanced t w' active
          → Balanced t (callback w').1 active)
      → mounts t w ≡ unmounts t w
      → (chrooted_callback env path bind_mounts callback no_default_binds w).0.0 ≡ none
      → mounts t (chrooted_callback env path bind_mounts callback no_default_binds w).1
        ≡ unmounts t (chrooted_callback env path bind_mounts callback no_default_binds w).1
  unfolding chrooted_callback set_extra_mounts new_chroot
  chrooted_callback-unmounts path bind_mounts callback no_default_binds w t k h e =
      let c = set_extra_mounts (new_chroot path no_default_binds) bind_mounts in
      let none_left : times t (run_callback env c callback w).0.1.active_mounts ≡ 0 =
        rw (run_callback-IsClosed c callback w refl e) refl in
      let all = run_callback-Balanced env t c callback w k (omega arith) in omega arith
