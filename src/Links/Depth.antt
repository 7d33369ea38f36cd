-- ===== src/Links/Depth.antt =====
-- `ResolveLink` follows a bounded number of links.
use elemental_toolkit.Base.{ℕ, zero, suc, ◌+◌, ◌*◌, ◌≤◌, String, Bool, true, false, [], ◌∷◌, arith}
use elemental_toolkit.Base.Proc.{value_or_fail, then_do_rule}
use elemental_toolkit.System.{Env, Log, asked, read_link, lstat}
use elemental_toolkit.Links.{link_target, resolve_from, resolve_link}

-- The questions that were asked.
abbrev pub questions : Log → ℕ
questions [] = 0
questions (asked what path ∷ w) = suc (questions w)
questions (_ ∷ w) = questions w

module _ (env : Env) where
  resolve_from-le :
      (depth : ℕ) (root path : String) (linked : Bool) (w : Log)
      → questions (resolve_from env depth root path linked w).1 ≤ questions w + 2 * depth
  unfolding resolve_from
  resolve_from-le depth root path false w = omega arith
  resolve_from-le zero root path true w = omega arith
  resolve_from-le (suc depth) root path true w =
      let reads = env.read_link w path in
      let w₁ : Log = asked "read_link" path ∷ w in
      then_do_rule (λ v. questions v ≤ questions w + 2 * suc depth) _
        (value_or_fail (read_link env path) w).0 w₁ (omega arith)
        (λ target.
          let to = link_target root path target in
          then_do_rule (λ v. questions v ≤ questions w + 2 * suc depth)
            (resolve_from env depth root to) (value_or_fail (lstat env to) w₁).0
            (asked "lstat" to ∷ w₁) (omega arith)
            (λ next. omega (arith, resolve_from-le depth root to next (asked "lstat" to ∷ w₁))))

  -- `ResolveLink` with a depth asks at most twice for each link that it may follow and once before.
  pub resolve_link-le :
      (path root : String) (depth : ℕ) (w : Log)
      → questions (resolve_link env path root depth w).1 ≤ questions w + 2 * depth + 1
  unfolding resolve_link
  resolve_link-le path root depth w =
      then_do_rule (λ v. questions v ≤ questions w + 2 * depth + 1)
        (resolve_from env depth root path) (value_or_fail (lstat env path) w).0
        (asked "lstat" path ∷ w) (omega arith)
        (λ linked. omega (arith, resolve_from-le depth root path linked (asked "lstat" path ∷ w)))
