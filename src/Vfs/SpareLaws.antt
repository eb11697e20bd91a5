-- ===== src/Vfs/SpareLaws.antt =====
-- PurgeUnseen: what becomes of each entry.
use weave_ftpd.Base.{◌≡◌, [], true, false, Option, none, some, Text, lookup}
use weave_ftpd.Base.Int.{ℤ}
use weave_ftpd.Vfs.State.{Vfs, VfsFile, has_key}
use weave_ftpd.Vfs.LinkLaws.{is_child, IsTree}
use weave_ftpd.Vfs.BelowLaws.{Reaches}
use weave_ftpd.Vfs.PurgeLaws.{is_stale}

-- What became of the entry at `q`: it is as it was, or a protected directory that belongs to no slave
-- any more, or gone with a path at or above it whose entry the slave has not confirmed.
pub data Fate (now : ℤ) (s q : Text) (v w : Vfs) : Type 0 where
  kept : lookup q w.files ≡ lookup q v.files → Fate now s q v w
  freed :
      (f : VfsFile)
      → lookup q v.files ≡ some f
      → has_key q v.protected_dirs ≡ true
      → lookup q w.files ≡ some (record f { seen = true; slave_name = [] })
      → Fate now s q v w
  purged :
      (p : Text) (f : VfsFile)
      → Reaches v p q
      → lookup p v.files ≡ some f
      → is_stale now s (some f) ≡ true
      → has_key p v.protected_dirs ≡ false
      → lookup q w.files ≡ none
      → Fate now s q v w

abbrev reset_of : Option VfsFile → Option VfsFile
reset_of none = none
reset_of (some f) = some (record f { seen = true; slave_name = [] })

module _ (now : ℤ) (s : Text) (v : Vfs) where
  record IsPurging (w : Vfs) : Type 0 where
    tree : IsTree w
    fewer : (d c : Text) → is_child d c w ≡ true → is_child d c v ≡ true
    protected : w.protected_dirs ≡ v.protected_dirs
    fates : (q : Text) → Fate now s q v w
