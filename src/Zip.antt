-- ===== src/Zip.antt =====
-- SFV files: internal/zipscript/local_sfv.go and raceEntryKey of internal/zipscript/module.go.
pub mod Sfv
pub mod HexLaws
pub mod SfvLaws
pub mod FileLaws
pub mod KeyLaws
mod Examples
