-- ===== src/Vfs/NewEntryLaws.antt =====
-- AddFile of a file that nothing there can add to.
use weave_ftpd.Base.{
  ◌≡◌, refl, ap, ◌∙◌, List, [], ◌∷◌, false, Bool, ◌&&◌, Option, none, some, if◌then◌else◌, ◌==◌,
  Text, text_eq, lookup, All, arith,
}
use weave_ftpd.Base.Int.{ℤ, pos, eqb_ℤ}
use weave_ftpd.Vfs.Paths.{clean_vfs_path, is_weak_metadata_value}
use weave_ftpd.Vfs.PathLaws.{IsTidy, path_to}
use weave_ftpd.Vfs.State.{Vfs, VfsFile, has_key}
use weave_ftpd.Vfs.Merge.{
  keep_strong, keep_size, keep_transfer, merge_existing, as_protected, as_link, stored_file,
}
use weave_ftpd.Vfs.Write.{add_file}
use weave_ftpd.Vfs.Read.{get_file}
use weave_ftpd.Vfs.WriteLaws.{IsShown, add_file-get_file}

-- There is no entry, or the new one has a time of transfer, a checksum, and a strong owner and group.
unfoldable pub Overrides : Option VfsFile → VfsFile → Type 0
Overrides none f = Unit
Overrides (some old) f =
    (eqb_ℤ f.xfer_time (pos 0) ≡ false)
    × ((f.checksum == 0) ≡ false)
    × (is_weak_metadata_value f.owner ≡ false)
    × (is_weak_metadata_value f.group ≡ false)

merge_existing_overridden :
    (o : Option VfsFile) (f : VfsFile) → Overrides o f → merge_existing o f ≡ f
unfolding merge_existing keep_strong keep_size keep_transfer Overrides
merge_existing_overridden none f h = refl
merge_existing_overridden (some old) f (x, c, o, g) = rw (x, c, o, g) (ground arith)

-- The entry as it was given, under its path, with a clean target if it has one.
abbrev pub placed : Text → VfsFile → VfsFile
placed p f = record f {
  path = p;
  link_target = if text_eq f.link_target [] then [] else clean_vfs_path f.link_target;
}

skipped : (b c : Bool) (g f : VfsFile) → b ≡ false → (if b && c then g else f) ≡ f
skipped b c g f h = ap (λ d. if d && c then g else f) h

as_link_plain : (v : Vfs) (p : Text) (f : VfsFile) → f.is_symlink ≡ false → as_link v p f ≡ f
unfolding as_link
as_link_plain v p f h = skipped f.is_symlink _ _ f h

as_protected_open : (b : Bool) (f : VfsFile) → b ≡ false → as_protected b f ≡ f
unfolding as_protected
as_protected_open b f h = ap (λ c. as_protected c f) h

Overrides-placed :
    (o : Option VfsFile) (p : Text) (f : VfsFile) → Overrides o f → Overrides o (placed p f)
unfolding Overrides
Overrides-placed none p f h = tt
Overrides-placed (some old) p f h = h

stored_file_overridden :
    (v : Vfs) (p : Text) (f : VfsFile)
    → has_key p v.protected_dirs ≡ false
    → f.is_symlink ≡ false
    → Overrides (lookup p v.files) f
    → stored_file v p f ≡ placed p f
unfolding stored_file
stored_file_overridden v p f unprotected plain h =
    let old = lookup p v.files in
    ap (λ g. merge_existing old (as_link v p g))
      (as_protected_open (has_key p v.protected_dirs) (placed p f) unprotected)
    ∙ (ap (merge_existing old) (as_link_plain v p (placed p f) plain)
        ∙ merge_existing_overridden old (placed p f) (Overrides-placed old p f h))

-- After AddFile of a file that is neither a directory nor a link, under a tidy path that is neither
-- hidden, excluded nor protected, where the path had no entry or the file comes with a time of
-- transfer, a checksum and a strong owner and group, GetFile returns for that path the file as it was
-- given, with the path, and the clean form of its link target, if any.
pub add_file-get_file-placed :
    (x : Text) (up : List Text) (t : IsTidy x) (ts : All IsTidy up) (now : ℤ) (f : VfsFile)
    (v : Vfs)
    → IsShown (path_to (x ∷ up)) v
    → has_key (path_to (x ∷ up)) v.protected_dirs ≡ false
    → f.is_dir ≡ false
    → f.is_symlink ≡ false
    → Overrides (lookup (path_to (x ∷ up)) v.files) f
    → get_file (path_to (x ∷ up)) (add_file now (path_to (x ∷ up)) f v)
      ≡ some (placed (path_to (x ∷ up)) f)
add_file-get_file-placed x up t ts now f v shown unprotected file plain h =
    let p = path_to (x ∷ up) in
    let stored = stored_file_overridden v p f unprotected plain h in
    add_file-get_file x up t ts now f v shown (ap (λ g. g.is_dir) stored ∙ file)
    ∙ ap (λ g. some g) stored
