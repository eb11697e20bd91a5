-- ===== src/Vfs/IndexExamples.antt =====
-- The laws of the slave index at a concrete tree.
use weave_ftpd.Base.{
  ◌≡◌, refl, [], ◌∷◌, List, false, Text, codes, text_ne, All, lookup, text_eq, trim_space, is_space,
  true, none, insert, some, ◌≢◌, ◌↔◌, ◌⊎◌, sym, ap, ◌∙◌,
}
use weave_ftpd.Base.Int.{pos}
use weave_ftpd.GoPath.Clean.{dot, dot_dot, clean, slash}
use weave_ftpd.Vfs.PathLaws.{IsTidy, path_to, clean_vfs_path-path_to}
use weave_ftpd.Vfs.State.{Vfs, VfsFile, made_dir, has_key}
use weave_ftpd.Vfs.Write.{add_file}
use weave_ftpd.Vfs.Slaves.{mark_all_unseen}
use weave_ftpd.Vfs.Clear.{is_owned, clear_slave}
use weave_ftpd.Vfs.IndexedLaws.{IsIndexed}
use weave_ftpd.Vfs.ReachLaws.{Reached, Reached-IsIndexed, clear_slave-IsFree_anywhere}
use weave_ftpd.Vfs.WriteLaws.{IsShown}
use weave_ftpd.Vfs.Paths.{is_covered_by, clean_vfs_path, at_or_below}
use weave_ftpd.Vfs.DirLaws.{IsDir}
use weave_ftpd.Vfs.AddDirs.{add_file-IsDir_above}
use weave_ftpd.Vfs.Collect.{collect_from, rounds_for, longest_child, collect_subtree}
use weave_ftpd.Vfs.Delete.{delete_file}
use weave_ftpd.Vfs.Purge.{purge_unseen}
use weave_ftpd.Vfs.CollectLaws.{is_among}
use weave_ftpd.Vfs.BelowLaws.{Reaches}
use weave_ftpd.Vfs.DeleteFileLaws.{undated}
use weave_ftpd.Vfs.BuiltStates.{IsSound, Built, Built-IsSound}
use weave_ftpd.Vfs.Start.{configured_vfs, protect_all}
use weave_ftpd.Vfs.MarkedLaws.{Awaiting, mark_all_unseen-Awaiting}
use weave_ftpd.Vfs.SubtreeLaws.{walk-Reaches, delete_file-at_or_below}
use Reached.{start, adds, marks, clears}
use Built.{start, adds, marks, deletes, purges}

abbrev up : List Text
up = codes "a" ∷ []

a_IsTidy : IsTidy (codes "a")
unfolding text_eq is_space
a_IsTidy = record {
  plain = record {
    not_empty = text_ne (codes "a") [] refl;
    not_dot = text_ne (codes "a") dot refl;
    not_dot_dot = text_ne (codes "a") dot_dot refl;
    no_slash = (refl, tt);
  };
  end = refl;
}

b_IsTidy : IsTidy (codes "b")
unfolding text_eq is_space
b_IsTidy = record {
  plain = record {
    not_empty = text_ne (codes "b") [] refl;
    not_dot = text_ne (codes "b") dot refl;
    not_dot_dot = text_ne (codes "b") dot_dot refl;
    no_slash = (refl, tt);
  };
  end = refl;
}

up_AreTidy : All IsTidy up
up_AreTidy = (a_IsTidy, tt)

abbrev first_slave : Text
first_slave = codes "s1"

-- The file "/a/b" of the slave.
abbrev uploaded : VfsFile
uploaded = record (made_dir (path_to (codes "b" ∷ up)) first_slave) {
  is_dir = false;
  size = pos 500;
}

first_slave_is_trimmed : trim_space first_slave ≡ first_slave
unfolding trim_space is_space
first_slave_is_trimmed = refl

first_slave_is_named : text_eq (trim_space first_slave) [] ≡ false
unfolding trim_space is_space text_eq
first_slave_is_named = refl

-- A file system in which "/a" is protected and "/x" hidden.
abbrev protected_vfs : Vfs
protected_vfs = configured_vfs (codes "/a" ∷ []) (codes "/x" ∷ []) []

abbrev after_upload : Vfs
after_upload = add_file (pos 9) (path_to (codes "b" ∷ up)) uploaded protected_vfs

protected_run : has_key (codes "/a") protected_vfs.protected_dirs ≡ true
unfolding configured_vfs protect_all clean_vfs_path clean trim_space is_space lookup text_eq insert
protected_run = refl

after_upload-Reached : Reached after_upload
after_upload-Reached =
    adds (pos 9) (codes "b") up uploaded protected_vfs b_IsTidy up_AreTidy first_slave_is_trimmed
      (start (codes "/a" ∷ []) (codes "/x" ∷ []) [])

Reached-IsIndexed_example :
    IsIndexed (clear_slave first_slave (mark_all_unseen first_slave after_upload))
Reached-IsIndexed_example =
    Reached-IsIndexed (clear_slave first_slave (mark_all_unseen first_slave after_upload)) (
      clears first_slave (mark_all_unseen first_slave after_upload) first_slave_is_trimmed
        (marks first_slave after_upload after_upload-Reached))

clear_slave-IsFree_example :
    is_owned first_slave
      (lookup (path_to (codes "b" ∷ up)) (clear_slave first_slave after_upload).files)
    ≡ false
clear_slave-IsFree_example =
    clear_slave-IsFree_anywhere first_slave (path_to (codes "b" ∷ up)) after_upload
      first_slave_is_named after_upload-Reached

abbrev dir_a : Text
dir_a = path_to up

file_IsShown : IsShown (path_to (codes "b" ∷ up)) protected_vfs
unfolding is_covered_by text_eq clean_vfs_path clean trim_space configured_vfs
file_IsShown = refl

-- The directory that was made for the file.
dir_a_there : (f : VfsFile) × (lookup (clean_vfs_path dir_a) after_upload.files ≡ some f)
unfolding IsDir
dir_a_there =
    let (f, e, d) =
      (add_file-IsDir_above (codes "b") up b_IsTidy up_AreTidy (pos 9) uploaded protected_vfs
        file_IsShown).0 in
    (f, ap (λ x. lookup x after_upload.files) (clean_vfs_path-path_to up up_AreTidy) ∙ e)

dir_a_is_not_root : clean_vfs_path dir_a ≢ slash
unfolding text_eq
dir_a_is_not_root k = text_ne dir_a slash refl (sym (clean_vfs_path-path_to up up_AreTidy) ∙ k)

after_upload-Built : Built after_upload
after_upload-Built =
    adds (pos 9) (codes "b") up uploaded protected_vfs b_IsTidy up_AreTidy first_slave_is_trimmed
      (start (codes "/a" ∷ []) (codes "/x" ∷ []) [])

Built-IsSound_example : IsSound (
    delete_file
      (pos 10)
      dir_a
      (purge_unseen (pos 500) first_slave (mark_all_unseen first_slave after_upload)))
Built-IsSound_example =
    let marked = mark_all_unseen first_slave after_upload in
    let purged = purge_unseen (pos 500) first_slave marked in
    Built-IsSound (delete_file (pos 10) dir_a purged) (
      deletes (pos 10) dir_a purged
        (purges (pos 500) first_slave marked (marks first_slave after_upload after_upload-Built)))

walk-Reaches_example :
    ((collect_from
        (rounds_for (longest_child after_upload.children) after_upload dir_a)
        after_upload
        (dir_a ∷ [])).1
      ≡ [])
    × ((is_among (path_to (codes "b" ∷ up)) (collect_subtree dir_a after_upload) ≡ true)
        ↔ Reaches after_upload dir_a (path_to (codes "b" ∷ up)))
walk-Reaches_example = walk-Reaches dir_a (path_to (codes "b" ∷ up)) after_upload after_upload-Built

delete_file-at_or_below_example :
    ((at_or_below (path_to (codes "b" ∷ up)) (clean_vfs_path dir_a) ≡ true)
      × (lookup (path_to (codes "b" ∷ up)) (delete_file (pos 10) dir_a after_upload).files ≡ none))
    ⊎ ((at_or_below (path_to (codes "b" ∷ up)) (clean_vfs_path dir_a) ≡ false)
        × (undated
              (lookup (path_to (codes "b" ∷ up)) (delete_file (pos 10) dir_a after_upload).files)
            ≡ undated (lookup (path_to (codes "b" ∷ up)) after_upload.files)))
delete_file-at_or_below_example =
    delete_file-at_or_below (pos 10) dir_a dir_a_there.0 (path_to (codes "b" ∷ up)) after_upload
      after_upload-Built dir_a_there.1 dir_a_is_not_root

mark_all_unseen-Awaiting_example :
    Awaiting first_slave
      (has_key dir_a after_upload.protected_dirs)
      (lookup dir_a after_upload.files)
      (lookup dir_a (mark_all_unseen first_slave after_upload).files)
mark_all_unseen-Awaiting_example =
    mark_all_unseen-Awaiting first_slave dir_a after_upload first_slave_is_named
      after_upload-Reached
