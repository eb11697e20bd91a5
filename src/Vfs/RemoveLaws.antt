-- ===== src/Vfs/RemoveLaws.antt =====
-- The loop of deletePathLocked: which entries and which links it takes away.
use weave_ftpd.Base.{
  ◌≡◌, ◌↔◌, inl, inr, refl, sym, ap, ◌∙◌, subst, [], ◌∷◌, List, Bool, true, false, ◌&&◌, ◌||◌, not,
  Option, if◌then◌else◌, none, Text, text_eq, text_eq_iff, text_ne, lookup, delete, Bool-cases,
  arith, All,
}
use weave_ftpd.Vfs.Paths.{clean_vfs_path, parent}
use weave_ftpd.Vfs.State.{Vfs, VfsFile}
use weave_ftpd.Vfs.Index.{delete_file_entry_only}
use weave_ftpd.Vfs.ClearLaws.{drop_child-Keeps}
use weave_ftpd.Vfs.Delete.{remove_path, remove_paths}
use weave_ftpd.Vfs.WriteLaws.{delete_file_entry_only-Keeps}
use weave_ftpd.Vfs.DroppedLaws.{delete_file_entry_only-gone}
use weave_ftpd.Vfs.LinkLaws.{is_child, is_child_of_same, is_child-drop, is_child-forget}
use weave_ftpd.Vfs.BuiltLaws.{deleted-children}
use weave_ftpd.Vfs.CollectLaws.{is_among}

dropped_entry :
    (r q : Text) (v : Vfs)
    → clean_vfs_path r ≡ r
    → lookup q (delete_file_entry_only r v).files ≡ (if text_eq r q then none else lookup q v.files)
dropped_entry r q v clean = elim (Bool-cases (text_eq r q)) [
  | inl same ↦ rw same (
      subst (λ x. lookup x (delete_file_entry_only r v).files ≡ none) ((text_eq_iff r q).0 same)
        (delete_file_entry_only-gone r v clean))
  | inr other ↦
      rw other (delete_file_entry_only-Keeps r q v (λ e. text_ne r q other (sym clean ∙ e))).entry
]

-- The entry at `q` after one round.
removed_entry :
    (path r q : Text) (v : Vfs)
    → clean_vfs_path r ≡ r
    → lookup q (remove_path path r v).files ≡ (if text_eq r q then none else lookup q v.files)
unfolding remove_path
removed_entry path r q v clean =
    let w = delete_file_entry_only r v in
    let w' : Vfs = record w { children = delete r w.children; dir_meta = delete r w.dir_meta } in
    elim (Bool-cases (text_eq r path)) [
      | inl top ↦ rw top (dropped_entry r q v clean)
      | inr below ↦ rw below ((drop_child-Keeps q r w').entry ∙ dropped_entry r q v clean)
    ]

-- The link from `d` to `c` after one round.
removed_link :
    (path r d c : Text) (v : Vfs)
    → is_child d c (remove_path path r v) ≡ (
        (text_eq r path || not (text_eq (parent r) d && text_eq r c))
        && (not (text_eq r d) && is_child d c v))
unfolding remove_path
removed_link path r d c v =
    let w = delete_file_entry_only r v in
    let w' : Vfs = record w { children = delete r w.children; dir_meta = delete r w.dir_meta } in
    let forgotten =
      is_child_of_same d c (record w { children = delete r w.children }) w' refl
      ∙ is_child-forget d c r w
      ∙ ap (λ b. not (text_eq r d) && b) (is_child_of_same d c v w (deleted-children r v)) in
    elim (Bool-cases (text_eq r path)) [
      | inl top ↦ rw top forgotten
      | inr below ↦ rw below (
          is_child-drop d c r w'
          ∙ ap (λ b. not (text_eq (parent r) d && text_eq r c) && b) forgotten)
    ]

gone_or :
    (a b : Bool) (o : Option VfsFile)
    → (if b then none else if a then none else o) ≡ (if a || b then none else o)
gone_or a b o = ground arith

untouched :
    (top same_parent same below kept : Bool)
    → same ≡ false
    → below ≡ false
    → kept ≡ true
    → ((top || not (same_parent && same)) && (not below && kept)) ≡ true
untouched top same_parent same below kept h k l = ground arith

neither : (a b : Bool) → ((a || b) ≡ false) ↔ ((a ≡ false) × (b ≡ false))
neither a b = ground arith

or_false : (a b : Bool) → a ≡ false → b ≡ false → (a || b) ≡ false
or_false a b h k = (neither a b).1 (h, k)

still_linked :
    (a below kept : Bool) → (a && (not below && kept)) ≡ true → (kept ≡ true) × (below ≡ false)
still_linked a below kept h = ground arith

pub remove_paths-entry :
    (path q : Text) (rs : List Text) (v : Vfs)
    → All (λ r. clean_vfs_path r ≡ r) rs
    → lookup q (remove_paths path rs v).files ≡ (if is_among q rs then none else lookup q v.files)
unfolding remove_paths is_among
remove_paths-entry path q [] v clean = refl
remove_paths-entry path q (r ∷ rs) v (t, ts) =
    remove_paths-entry path q rs (remove_path path r v) ts
    ∙ rw (removed_entry path r q v t) (gone_or (text_eq r q) (is_among q rs) (lookup q v.files))

-- A link is there afterwards only if it was there before, from a directory that is none of these.
pub remove_paths-link :
    (path d c : Text) (rs : List Text) (v : Vfs)
    → is_child d c (remove_paths path rs v) ≡ true
    → (is_child d c v ≡ true) × (is_among d rs ≡ false)
unfolding remove_paths is_among
remove_paths-link path d c [] v h = (h, refl)
remove_paths-link path d c (r ∷ rs) v h =
    let (k, ds) = remove_paths-link path d c rs (remove_path path r v) h in
    let (kept, below) =
      still_linked (text_eq r path || not (text_eq (parent r) d && text_eq r c)) (text_eq r d)
        (is_child d c v) (sym (removed_link path r d c v) ∙ k) in
    (kept, or_false (text_eq r d) (is_among d rs) below ds)

-- A link between paths that are none of these stays.
pub remove_paths-kept :
    (path d c : Text) (rs : List Text) (v : Vfs)
    → is_among d rs ≡ false
    → is_among c rs ≡ false
    → is_child d c v ≡ true
    → is_child d c (remove_paths path rs v) ≡ true
unfolding remove_paths is_among
remove_paths-kept path d c [] v ds cs h = h
remove_paths-kept path d c (r ∷ rs) v ds cs h =
    let (d₁, ds₁) = (neither (text_eq r d) (is_among d rs)).0 ds in
    let (c₁, cs₁) = (neither (text_eq r c) (is_among c rs)).0 cs in
    remove_paths-kept path d c rs (remove_path path r v) ds₁ cs₁ (
      removed_link path r d c v
      ∙ untouched (text_eq r path) (text_eq (parent r) d) (text_eq r c) (text_eq r d)
          (is_child d c v) c₁ d₁ h)
