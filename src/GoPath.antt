-- ===== src/GoPath.antt =====
-- The functions of Go's packages `path` and `path/filepath` (on Unix, where they agree) that the
-- program calls: Clean, Dir, Base and Match.
pub mod Clean
pub mod Glob
pub mod CleanLaws
pub mod DirLaws
mod Runs
