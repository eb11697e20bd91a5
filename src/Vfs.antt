-- ===== src/Vfs.antt =====
-- The master's virtual file system: internal/master/vfs.go.
pub mod Paths
pub mod State
pub mod Index
pub mod Tree
pub mod Merge
pub mod Write
pub mod Read
pub mod Slaves
pub mod Clear
pub mod Collect
pub mod Delete
pub mod Purge
pub mod PathLaws
pub mod IndexLaws
pub mod SortLaws
pub mod IndexedLaws
pub mod DroppedLaws
pub mod TreeLaws
pub mod DirLaws
pub mod MergeLaws
pub mod ReadLaws
pub mod CoverLaws
pub mod WriteLaws
pub mod NewEntryLaws
pub mod AddDirs
pub mod SlaveLaws
pub mod StoreLaws
pub mod UpdateLaws
pub mod FreeLaws
pub mod ClearLaws
pub mod ClearIndexLaws
pub mod ReachLaws
pub mod LinkLaws
pub mod HangLaws
pub mod ShapeLaws
pub mod BuiltLaws
pub mod CollectLaws
pub mod BelowLaws
pub mod RemoveLaws
pub mod CutLaws
pub mod DeleteLaws
pub mod DeleteFileLaws
pub mod DroppingLaws
pub mod StableLaws
pub mod Start
pub mod StartLaws
pub mod BuiltStates
pub mod PurgeLaws
pub mod BeneathLaws
pub mod DeletedLinks
pub mod MarkedLaws
pub mod FreedLaws
pub mod SpareLaws
pub mod SubtreeLaws
mod Examples
mod IndexExamples
