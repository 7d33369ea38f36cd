-- ===== src/Links.antt =====
-- pkg/utils/common.go and pkg/utils/fs.go: symbolic links are followed below a root directory, to a
-- given depth. On the real file system `readlink` gives what the link holds.
pub mod Depth
use elemental_toolkit.Base.{
  ℕ, zero, suc, String, ◌<>◌, Bool, true, false, Option, none, some, if◌then◌else◌,
}
use elemental_toolkit.Base.Text.{join, dir, is_abs}
use elemental_toolkit.Base.Outcome.{plain, Result, ok, err, panic}
use elemental_toolkit.Base.Proc.{Proc, pure, value_or_fail, ◌>>=◌}
use elemental_toolkit.System.{Env, Log, Act, lstat, read_link}

-- Where a link at `path` that holds `target` leads.
unfoldable pub link_target : String → String → String → String
unfolding is_abs join dir
link_target root path target = if is_abs target then join root target else join (dir path) target

module _ (env : Env) where
  -- `resolveLink` of a path that is a link or not.
  unfoldable pub resolve_from : ℕ → String → String → Bool → Proc Log String
  resolve_from depth root path false w = (ok path, w)
  resolve_from zero root path true w =
      (err (plain ("can't resolve this path '" <> path <> "', too many nested links")), w)
  resolve_from (suc depth) root path true w =
      (do
        target ← value_or_fail (read_link env path)
        linked ← value_or_fail (lstat env (link_target root path target))
        resolve_from depth root (link_target root path target) linked)
        w

  -- `ResolveLink`
  unfoldable pub resolve_link : String → String → ℕ → Proc Log String
  unfolding resolve_from
  resolve_link path root depth = do
    linked ← value_or_fail (lstat env path)
    resolve_from depth root path linked
