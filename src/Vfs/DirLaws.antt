-- ===== src/Vfs/DirLaws.antt =====
-- The directories that the walks over the ancestors of a path make.
use weave_ftpd.Base.{
  ◌≡◌, ◌≢◌, refl, sym, ◌∙◌, List, [], ◌∷◌, true, ◌&&◌, some, Text, text_eq, text_eq_iff, text_ne,
  lookup, insert, lookup-insert_self, and_parts, Bool-cases, Option-cases, inl, inr, All,
}
use weave_ftpd.Base.Int.{ℤ, ltb_ℤ}
use weave_ftpd.GoPath.Clean.{slash}
use weave_ftpd.Vfs.Paths.{parent}
use weave_ftpd.Vfs.State.{Vfs, VfsFile, made_dir}
use weave_ftpd.Vfs.Tree.{ensure_dir, ensure_linked_dir, ensure_dirs, touch_dir, touch_dirs}
use weave_ftpd.Vfs.TreeLaws.{
  Keeps, insert-Keeps, add_slave_path-Keeps, ensure_children_bucket-Keeps, link_child-Keeps,
  ensure_linked_dir-Keeps,
}

-- There is an entry for `d`, and it is a directory.
unfoldable pub IsDir : Text → Vfs → Type 0
IsDir d v = (f : VfsFile) × (lookup d v.files ≡ some f) × (f.is_dir ≡ true)

pub IsDir-of_Keeps : (d : Text) (v w : Vfs) → Keeps d v w → IsDir d v → IsDir d w
unfolding IsDir
IsDir-of_Keeps d v w k (f, e, h) = (f, k.entry ∙ e, h)

pub insert-IsDir :
    (d : Text) (f : VfsFile) (v : Vfs)
    → f.is_dir ≡ true
    → IsDir d (record v { files = insert d f v.files })
unfolding IsDir
insert-IsDir d f v h = (f, lookup-insert_self d f v.files, h)

ensure_dir-IsDir : (s d : Text) (v : Vfs) → IsDir d (ensure_dir s d v)
unfolding ensure_dir
ensure_dir-IsDir s d v = elim (Option-cases (lookup d v.files)) [
  | inl e ↦
      rw (e, ensure_dir)
        (IsDir-of_Keeps d _ _ (add_slave_path-Keeps d s d _) (insert-IsDir d (made_dir d s) v refl))
  | inr (f, e) ↦ rw (e, ensure_dir) (insert-IsDir d _ v refl)
]

ensure_linked_dir-IsDir : (s d : Text) (v : Vfs) → IsDir d (ensure_linked_dir s d v)
unfolding ensure_linked_dir
ensure_linked_dir-IsDir s d v =
    let made =
      IsDir-of_Keeps d _ _ (ensure_children_bucket-Keeps d d (ensure_dir s d v))
        (ensure_dir-IsDir s d v) in
    elim (Bool-cases (text_eq d slash)) [
      | inl e ↦ rw e made
      | inr e ↦ rw e (IsDir-of_Keeps d _ _ (link_child-Keeps d (parent d) d _) made)
    ]

-- An operation on one directory, which keeps all other entries, keeps every directory.
Keeps-IsDir_by :
    (c d : Text) (v w : Vfs) → IsDir d w → (d ≢ c → Keeps c v w) → IsDir c v → IsDir c w
Keeps-IsDir_by c d v w made kept h = elim (Bool-cases (text_eq d c)) [
  | inl e ↦ rw (sym ((text_eq_iff d c).0 e)) made
  | inr e ↦ IsDir-of_Keeps c v w (kept (text_ne d c e)) h
]

pub ensure_dirs-IsDir_kept :
    (c s : Text) (ds : List Text) (v : Vfs) → IsDir c v → IsDir c (ensure_dirs s ds v)
unfolding ensure_dirs
ensure_dirs-IsDir_kept c s [] v h = h
ensure_dirs-IsDir_kept c s (d ∷ ds) v h =
    ensure_dirs-IsDir_kept c s ds (ensure_linked_dir s d v)
      (Keeps-IsDir_by c d v _ (ensure_linked_dir-IsDir s d v) (ensure_linked_dir-Keeps c s d v) h)

pub ensure_dirs-IsDir :
    (s : Text) (ds : List Text) (v : Vfs) → All (λ d. IsDir d (ensure_dirs s ds v)) ds
unfolding ensure_dirs
ensure_dirs-IsDir s [] v = tt
ensure_dirs-IsDir s (d ∷ ds) v = (
  ensure_dirs-IsDir_kept d s ds _ (ensure_linked_dir-IsDir s d v),
  ensure_dirs-IsDir s ds (ensure_linked_dir s d v),
)

touch_dir-IsDir_kept :
    (c : Text) (ts : ℤ) (d : Text) (v : Vfs) → IsDir c v → IsDir c (touch_dir ts d v)
unfolding touch_dir
touch_dir-IsDir_kept c ts d v h = elim (Option-cases (lookup d v.files)) [
  | inl e ↦ rw (e, touch_dir) h
  | inr (f, e) ↦ elim (Bool-cases (f.is_dir && ltb_ℤ f.last_modified ts)) [
    | inl t ↦
        rw (e, touch_dir, t)
          (Keeps-IsDir_by c d v _
            (insert-IsDir d _ v ((and_parts f.is_dir (ltb_ℤ f.last_modified ts)).0 t).0)
            (insert-Keeps c d _ v) h)
    | inr t ↦ rw (e, touch_dir, t) h
  ]
]

pub touch_dirs-IsDir_kept :
    (c : Text) (ts : ℤ) (ds : List Text) (v : Vfs) → IsDir c v → IsDir c (touch_dirs ts ds v)
unfolding touch_dirs
touch_dirs-IsDir_kept c ts [] v h = h
touch_dirs-IsDir_kept c ts (d ∷ ds) v h =
    touch_dirs-IsDir_kept c ts ds _ (touch_dir-IsDir_kept c ts d v h)
