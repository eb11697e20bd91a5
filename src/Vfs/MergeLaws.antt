-- ===== src/Vfs/MergeLaws.antt =====
-- The laws of what AddFile keeps of an entry, and of UpdateFileTransferSize.
use weave_ftpd.Base.{
  ◌≡◌, ◌⊎◌, refl, sym, ◌∙◌, Bool, true, false, ◌&&◌, not, Option, none, some, if◌then◌else◌, ◌==◌,
  Text, lookup, insert, lookup-insert, text_eq, text_eq_iff, Bool-cases, Option-cases, inl, inr,
  arith,
}
use weave_ftpd.Base.Int.{ℤ, pos, ltb_ℤ, leb_ℤ, eqb_ℤ, max_ℤ, int_laws, ◌<ℤ◌}
use weave_ftpd.Vfs.Paths.{clean_vfs_path}
use weave_ftpd.Vfs.State.{Vfs, VfsFile}
use weave_ftpd.Vfs.Index.{mark_persist_dirty}
use weave_ftpd.Vfs.Merge.{is_plain_file, keep_strong, keep_size, keep_transfer, merge_existing}
use weave_ftpd.Vfs.Write.{may_grow, update_file_transfer_size}

-- A file whose upload has been verified: it has a transfer time and a checksum.
unfoldable pub is_verified : VfsFile → Bool
is_verified f = ltb_ℤ (pos 0) f.xfer_time && not (f.checksum == 0)

-- An entry that says nothing of a transfer.
unfoldable pub has_no_evidence : VfsFile → Bool
has_no_evidence f = eqb_ℤ f.xfer_time (pos 0) && f.checksum == 0

keep_transfer_size : (old new : VfsFile) → (keep_transfer old new).size ≡ new.size
unfolding keep_transfer
keep_transfer_size old new =
    elim (Bool-cases (is_plain_file new && (is_plain_file old && eqb_ℤ old.size new.size))) [
      | inl e ↦ rw e refl
      | inr e ↦ rw e refl
    ]

size_choice : (a b : ℤ) → (if ltb_ℤ a b then b else a) ≡ max_ℤ a b
size_choice a b = grind (int_laws, arith)

keep_size_lem :
    (old new : VfsFile)
    → is_plain_file old ≡ true
    → is_plain_file new ≡ true
    → is_verified old ≡ true
    → has_no_evidence new ≡ true
    → keep_size old new ≡ max_ℤ new.size old.size
unfolding keep_size is_verified has_no_evidence
keep_size_lem old new p q v e = rw (p, q, e, v) (size_choice new.size old.size)

-- When AddFile replaces a plain file whose upload has been verified by a plain file that comes
-- without a transfer time and without a checksum, the entry keeps the greater of the two sizes.
pub merge_existing-size :
    (old new : VfsFile)
    → is_plain_file old ≡ true
    → is_plain_file new ≡ true
    → is_verified old ≡ true
    → has_no_evidence new ≡ true
    → (merge_existing (some old) new).size ≡ max_ℤ new.size old.size
unfolding merge_existing
merge_existing-size old new p q v e =
    keep_transfer_size old (record new {
      owner = keep_strong new.owner old.owner;
      group = keep_strong new.group old.group;
      size = keep_size old new;
    })
    ∙ keep_size_lem old new p q v e

-- What the running size of a transfer may make of an entry: nothing, or, of one that is not
-- verified, the same entry with a greater size.
pub Grown : Option VfsFile → Option VfsFile → Type 0
Grown none after = after ≡ none
Grown (some f) after =
    (after ≡ some f)
    ⊎ ((is_verified f ≡ false) × (n : ℤ) × (f.size <ℤ n) × (after ≡ some (record f { size = n })))

Grown-refl : (o : Option VfsFile) → Grown o o
unfolding Grown
Grown-refl none = refl
Grown-refl (some f) = inl refl

may_grow_iff : (n : ℤ) (f : VfsFile) → may_grow n f ≡ true → (is_verified f ≡ false) × (f.size <ℤ n)
unfolding may_grow is_verified
may_grow_iff n f h = ground arith

insert-Grown :
    (p q : Text) (n : ℤ) (f : VfsFile) (v : Vfs)
    → lookup p v.files ≡ some f
    → may_grow n f ≡ true
    → Grown (lookup q v.files) (lookup q (insert p (record f { size = n }) v.files))
unfolding Grown
insert-Grown p q n f v e h = elim (Bool-cases (text_eq p q)) [
  | inl same ↦
      rw (lookup-insert, same, sym ((text_eq_iff p q).0 same), e)
        (inr ((may_grow_iff n f h).0, n, (may_grow_iff n f h).1, refl))
  | inr other ↦ rw (lookup-insert, other) (Grown-refl (lookup q v.files))
]

-- UpdateFileTransferSize makes the entry of no path smaller and changes no entry of a verified
-- upload; what it changes of any entry is its size.
pub update_file_transfer_size-Grown :
    (path : Text) (n : ℤ) (v : Vfs) (q : Text)
    → Grown (lookup q v.files) (lookup q (update_file_transfer_size path n v).0.files)
unfolding update_file_transfer_size mark_persist_dirty
update_file_transfer_size-Grown path n v q = elim (Bool-cases (leb_ℤ n (pos 0))) [
  | inl e ↦ rw e (Grown-refl (lookup q v.files))
  | inr e ↦ elim (Option-cases (lookup (clean_vfs_path path) v.files)) [
    | inl l ↦ rw (e, l) (Grown-refl (lookup q v.files))
    | inr (f, l) ↦ elim (Bool-cases (may_grow n f)) [
      | inl g ↦ rw (e, l, g) (insert-Grown (clean_vfs_path path) q n f v l g)
      | inr g ↦ rw (e, l, g) (Grown-refl (lookup q v.files))
    ]
  ]
]
