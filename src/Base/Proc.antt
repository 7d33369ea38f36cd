-- ===== src/Base/Proc.antt =====
-- Go functions that may fail, over a state that they read and change: what they return, and the state
-- that they leave, also where they fail.
use mathlib.Core.Path.{◌≡◌, refl}
use mathlib.Core.Logic.{inl, inr}
use mathlib.Core.Bool.{Bool, true, false}
use elemental_toolkit.Base.Tests.{if◌then◌else◌, Option-cases}
use mathlib.Core.Option.{Option, none, some}
use elemental_toolkit.Base.Outcome.{Error, Result, ok, err, panic}

abbrev pub Proc : Type 0 → Type 0 → Type 0
Proc W A = W → Result A × W

module _ {W : Type 0} where
  abbrev pub pure {ℓ} : {A : Type ℓ} → A → W → Result A × W
  pure a w = (ok a, w)

  abbrev pub raise : {A : Type 0} → Error → Proc W A
  raise e w = (err e, w)

  abbrev pub halt : {A : Type 0} → Proc W A
  halt w = (panic, w)

  -- `err := f(); if err != nil { return err }`
  abbrev pub or_fail : (W → Option Error × W) → Proc W (Unit {0})
  or_fail f w = let (e, w') = f w in (elim e [ none ↦ ok tt | some failure ↦ err failure ], w')

  -- `v, err := f(); if err != nil { return err }`
  abbrev pub value_or_fail : {A : Type 0} → (W → (A × Option Error) × W) → Proc W A
  value_or_fail f w =
      let ((a, e), w') = f w in (elim e [ none ↦ ok a | some failure ↦ err failure ], w')

  -- `f()`, with what it returns.
  abbrev pub call : {A : Type 0} → (W → A × W) → Proc W A
  call f w = let (a, w') = f w in (ok a, w')

  abbrev pub then_do : {A B : Type 0} → (A → Proc W B) → Result A × W → Result B × W
  then_do next (ok a, w) = next a w
  then_do next (err e, w) = (err e, w)
  then_do next (panic, w) = (panic, w)

  infixl 5 ◌>>=◌ ◌>>◌
  abbrev pub ◌>>=◌ : {A B : Type 0} → Proc W A → (A → Proc W B) → Proc W B
  ◌>>=◌ m next w = then_do next (m w)

  abbrev pub ◌>>◌ : {A B : Type 0} → Proc W A → Proc W B → Proc W B
  m >> next = m >>= λ _. next

  -- `if err != nil { handler(); return err }`
  abbrev pub handle : {A : Type 0} → (W → W) → Result A × W → Result A × W
  handle handler (ok a, w) = (ok a, w)
  handle handler (err e, w) = (err e, handler w)
  handle handler (panic, w) = (panic, w)

  abbrev pub on_error : {A B : Type 0} → Proc W A → (W → B × W) → Proc W A
  on_error m handler w = handle (λ w'. (handler w').1) (m w)

  -- `defer func() { e := f(); if err == nil { err = e } }()`, in a function that returns an error alone.
  abbrev pub join_error : Result (Unit {0}) → Option Error × W → Result (Unit {0}) × W
  join_error (ok _) (none, w) = (ok tt, w)
  join_error (ok _) (some e, w) = (err e, w)
  join_error (err first) (e, w) = (err first, w)
  join_error panic (e, w) = (panic, w)

  abbrev pub deferred : Proc W (Unit {0}) → (W → Option Error × W) → Proc W (Unit {0})
  deferred m f w = let (r, w') = m w in join_error r (f w')

  -- `_ = f()`
  abbrev pub dropped : {A : Type 0} → Result A × W → Result (Unit {0}) × W
  dropped (ok a, w) = (ok tt, w)
  dropped (err e, w) = (ok tt, w)
  dropped (panic, w) = (panic, w)

  abbrev pub ignored : {A : Type 0} → Proc W A → Proc W (Unit {0})
  ignored m w = dropped (m w)

  -- What a call changes, whatever it returns.
  abbrev pub Keeps {ℓ} : {A : Type 0} → (W → Type ℓ) → Proc W A → Type ℓ
  Keeps P m = (w : W) → P w → P (m w).1

  -- What holds after a step and after each way on holds after both.
  pub then_do_rule {ℓ} :
      {A B : Type 0} (P : W → Type ℓ) (next : A → Proc W B) (r : Result A) (w : W)
      → P w
      → ((a : A) → P (next a w).1)
      → P (then_do next (r, w)).1
  then_do_rule P next (ok a) w p k = k a
  then_do_rule P next (err e) w p k = p
  then_do_rule P next panic w p k = p

  Keeps-then_do {ℓ} :
      {A B : Type 0} (P : W → Type ℓ) (next : A → Proc W B) (r : Result A) (w : W)
      → ((a : A) → Keeps P (next a))
      → P w
      → P (then_do next (r, w)).1
  Keeps-then_do P next (ok a) w k p = k a w p
  Keeps-then_do P next (err e) w k p = p
  Keeps-then_do P next panic w k p = p

  pub Keeps-bind {ℓ} :
      {A B : Type 0} (P : W → Type ℓ) (m : Proc W A) (next : A → Proc W B)
      → Keeps P m
      → ((a : A) → Keeps P (next a))
      → Keeps P (m >>= next)
  Keeps-bind P m next h k w p = Keeps-then_do P next (m w).0 (m w).1 k (h w p)

  -- Inversion of two steps that succeed.
  then_do-eq-ok :
      {A B : Type 0} (next : A → Proc W B) (r : Result A) (w : W) {b : B} {w' : W}
      → then_do next (r, w) ≡ (ok b, w')
      → (a : A) × (r ≡ ok a) × (next a w ≡ (ok b, w'))
  then_do-eq-ok next (ok a) w h = (a, refl, h)
  then_do-eq-ok next (err e) w h = cc
  then_do-eq-ok next panic w h = cc

  pub >>=-eq-ok :
      {A B : Type 0} (m : Proc W A) (next : A → Proc W B) (w : W) {b : B} {w' : W}
      → (m >>= next) w ≡ (ok b, w')
      → (a : A) × ((m w).0 ≡ ok a) × (next a (m w).1 ≡ (ok b, w'))
  >>=-eq-ok m next w h = then_do-eq-ok next (m w).0 (m w).1 h

-- A step that does not panic and leaves a state where `P` holds.
module _ {W : Type 0} (P : W → Type 0) where
  abbrev pub Sound : {A : Type 0} → Result A × W → Type 0
  Sound (ok a, w) = P w
  Sound (err e, w) = P w
  Sound (panic, w) = ⊥

  abbrev pub Safe : {A : Type 0} → Proc W A → Type 0
  Safe m = (w : W) → P w → Sound (m w)

  pub Safe-then_do :
      {A B : Type 0} (next : A → Proc W B) (r : Result A) (w : W)
      → Sound (r, w)
      → ((a : A) → Safe (next a))
      → Sound (then_do next (r, w))
  Safe-then_do next (ok a) w h k = k a w h
  Safe-then_do next (err e) w h k = h
  Safe-then_do next panic w h k = h

  pub Safe-bind :
      {A B : Type 0} (m : Proc W A) (next : A → Proc W B)
      → Safe m
      → ((a : A) → Safe (next a))
      → Safe (m >>= next)
  Safe-bind m next h k w p = Safe-then_do next (m w).0 (m w).1 (h w p) k

  pub Safe-if :
      {A : Type 0} (b : Bool) (m n : Proc W A) → Safe m → Safe n → Safe (if b then m else n)
  Safe-if true m n h k = h
  Safe-if false m n h k = k

  Safe-dropped : {A : Type 0} (r : Result A) (w : W) → Sound (r, w) → Sound (dropped (r, w))
  Safe-dropped (ok a) w h = h
  Safe-dropped (err e) w h = h
  Safe-dropped panic w h = h

  pub Safe-ignored : {A : Type 0} (m : Proc W A) → Safe m → Safe (ignored m)
  Safe-ignored m h w p = Safe-dropped (m w).0 (m w).1 (h w p)

  -- A step that returns no error either.
  abbrev pub Done : {A : Type 0} → Result A × W → Type 0
  Done (ok a, w) = P w
  Done (err e, w) = ⊥
  Done (panic, w) = ⊥

  Done-dropped : {A : Type 0} (r : Result A) (w : W) → Sound (r, w) → Done (dropped (r, w))
  Done-dropped (ok a) w h = h
  Done-dropped (err e) w h = h
  Done-dropped panic w h = absurd h

  pub Done-ignored : {A : Type 0} (m : Proc W A) → Safe m → (w : W) → P w → Done (ignored m w)
  Done-ignored m h w p = Done-dropped (m w).0 (m w).1 (h w p)

  Done-then_do :
      {A B : Type 0} (next : A → Proc W B) (r : Result A) (w : W)
      → Done (r, w)
      → ((a : A) (w : W) → P w → Done (next a w))
      → Done (then_do next (r, w))
  Done-then_do next (ok a) w h k = k a w h
  Done-then_do next (err e) w h k = absurd h
  Done-then_do next panic w h k = absurd h

  pub Done-bind :
      {A B : Type 0} (m : Proc W A) (next : A → Proc W B)
      → ((w : W) → P w → Done (m w))
      → ((a : A) (w : W) → P w → Done (next a w))
      → (w : W) → P w
      → Done ((m >>= next) w)
  Done-bind m next h k w p = Done-then_do next (m w).0 (m w).1 (h w p) k

  Sound-or_fail :
      (e : Option Error) (w : W)
      → P w
      → Sound (elim e as (λ _. Result (Unit {0})) [ none ↦ ok tt | some failure ↦ err failure ], w)
  Sound-or_fail none w p = p
  Sound-or_fail (some e) w p = p

  pub Safe-or_fail : (f : W → Option Error × W) → ((w : W) → P w → P (f w).1) → Safe (or_fail f)
  Safe-or_fail f h w p = Sound-or_fail (f w).0 (f w).1 (h w p)

  pub Sound-value :
      {A : Type 0} (a : A) (e : Option Error) (w : W)
      → P w
      → Sound (elim e as (λ _. Result A) [ none ↦ ok a | some failure ↦ err failure ], w)
  Sound-value a none w p = p
  Sound-value a (some e) w p = p

  pub Safe-value_or_fail :
      {A : Type 0} (f : W → (A × Option Error) × W)
      → ((w : W) → P w → P (f w).1)
      → Safe (value_or_fail f)
  Safe-value_or_fail f h w p = Sound-value (f w).0.0 (f w).0.1 (f w).1 (h w p)

-- A step that leaves `P` where it succeeds and `E` where it fails.
module _ {W : Type 0} (E : W → Type 0) where
  abbrev pub Ends : {A : Type 0} → (W → Type 0) → Result A × W → Type 0
  Ends P (ok a, w) = P w
  Ends P (err e, w) = E w
  Ends P (panic, w) = Unit

  pub Ends-Keeps :
      {A : Type 0} (P : W → Type 0) (r : Result A) (w : W) → P w → (P w → E w) → Ends P (r, w)
  Ends-Keeps P (ok a) w p h = p
  Ends-Keeps P (err e) w p h = h p
  Ends-Keeps P panic w p h = tt

  pub Ends-then_do :
      {A B : Type 0} (P Q : W → Type 0) (next : A → Proc W B) (r : Result A) (w : W)
      → Ends P (r, w)
      → ((a : A) (w : W) → P w → Ends Q (next a w))
      → Ends Q (then_do next (r, w))
  Ends-then_do P Q next (ok a) w h k = k a w h
  Ends-then_do P Q next (err e) w h k = h
  Ends-then_do P Q next panic w h k = tt

-- A step by a call that may fail: the rest runs where it does not.
pub or_fail_rule :
    {W B : Type 0} (Q : Result B × W → Type 0) (f : W → Option Error × W)
    (next : Unit {0} → Proc W B) (w : W)
    → ((f w).0 ≡ none → Q (next tt (f w).1))
    → ((e : Error) → (f w).0 ≡ some e → Q (err e, (f w).1))
    → Q ((or_fail f >>= next) w)
or_fail_rule Q f next w h k = elim (Option-cases (f w).0) [
  | inl e ↦ rw e (h e)
  | inr (failure, e) ↦ rw e (k failure e)
]

pub with_state {ℓ κ} : {A : Type ℓ} {W : Type κ} (p : A × W) {a : A} → p.0 ≡ a → p ≡ (a, p.1)
with_state p e = λ i. (e i, p.1)

-- A call that sees one part of the state.
abbrev pub inside : {S W A : Type 0} → (W → A × W) → S × W → A × (S × W)
inside m (s, w) = let (a, w') = m w in (a, (s, w'))
