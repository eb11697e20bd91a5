-- ===== src/Vfs/StableLaws.antt =====
-- The steps of a remerge, and properties of the state that each deletion and change of an entry keeps.
use weave_ftpd.Base.{
  either_way, ◌≡◌, inl, inr, [], ◌∷◌, List, Bool, false, ◌&&◌, not, none, some, if◌then◌else◌, Text,
  text_eq, lookup, insert, Option-cases, All,
}
use weave_ftpd.Base.Int.{ℤ}
use weave_ftpd.Vfs.Paths.{clean_vfs_path}
use weave_ftpd.Vfs.State.{TextSet, Vfs, VfsFile, has_key}
use weave_ftpd.Vfs.Index.{remove_slave_path, paths_for_slave, mark_persist_dirty}
use weave_ftpd.Vfs.Slaves.{reset_protected_dir}
use weave_ftpd.Vfs.Collect.{keys_of, children_of, collect_subtree}
use weave_ftpd.Vfs.Delete.{delete_path}
use weave_ftpd.Vfs.Purge.{
  is_recent, or_changed, purge_path, purge_paths, dirty_if_changed, purge_unseen, reset_protected,
  reset_protected_dirs, mark_path_unseen, mark_each_unseen, mark_subtree_unseen, purge_below,
  purge_each_below, purge_unseen_subtree, purge_child, purge_children, purge_missing_children,
}

pub record IsStable (P : Vfs → Type 0) : Type 0 where
  pub deletes : (p : Text) (v : Vfs) → P v → P (delete_path p v).0
  pub resets :
      (p : Text) (f : VfsFile) (v : Vfs)
      → lookup p v.files ≡ some f
      → P v
      → P (reset_protected_dir p f v)
  pub marks :
      (p : Text) (f : VfsFile) (v : Vfs)
      → lookup p v.files ≡ some f
      → P v
      → P (record v { files = insert p (record f { seen = false }) v.files })
  pub unlists :
      (s p : Text) (v : Vfs)
      → clean_vfs_path p ≡ p
      → lookup p v.files ≡ none
      → P v
      → P (remove_slave_path s p v)
  pub dirties : (v : Vfs) → P v → P (mark_persist_dirty v)

module _ (P : Vfs → Type 0) (st : IsStable P) where
  deleted_if :
      (b changed : Bool) (p : Text) (v : Vfs)
      → P v
      → P (if b then or_changed changed (delete_path p v) else (v, changed)).0
  deleted_if b changed p v h =
      either_way b (λ (s : Vfs × Bool). P s.0) (or_changed changed (delete_path p v)) (v, changed)
        (st.deletes p v h) h

  dirty_if : (s : Vfs × Bool) → P s.0 → P (dirty_if_changed s)
  dirty_if (v, changed) h = either_way changed P _ v (st.dirties v h) h

  purge_path-IsStable :
      (now : ℤ) (s p : Text) (x : Vfs × Bool)
      → clean_vfs_path p ≡ p
      → P x.0
      → P (purge_path now s p x).0
  unfolding purge_path
  purge_path-IsStable now s p (v, changed) clean h = elim (Option-cases (lookup p v.files)) [
    | inl e ↦ rw (e, purge_path) (st.unlists s p v clean e h)
    | inr (f, e) ↦
        rw (e, purge_path)
          (either_way (has_key p v.protected_dirs) (λ (y : Vfs × Bool). P y.0) _ _
            (st.resets p f v e h)
            (deleted_if ((text_eq f.slave_name s && not f.seen) && not (is_recent now f)) changed p
              v h))
  ]

  purge_paths-IsStable :
      (now : ℤ) (s : Text) (ps : List Text) (x : Vfs × Bool)
      → All (λ p. clean_vfs_path p ≡ p) ps
      → P x.0
      → P (purge_paths now s ps x).0
  unfolding purge_paths
  purge_paths-IsStable now s [] x ts h = h
  purge_paths-IsStable now s (p ∷ ps) x (t, ts) h =
      purge_paths-IsStable now s ps (purge_path now s p x) ts (purge_path-IsStable now s p x t h)

  pub purge_unseen-IsStable :
      (now : ℤ) (s : Text) (v : Vfs)
      → All (λ p. clean_vfs_path p ≡ p) (paths_for_slave s v)
      → P v
      → P (purge_unseen now s v)
  unfolding purge_unseen
  purge_unseen-IsStable now s v clean h =
      dirty_if (purge_paths now s (paths_for_slave s v) (v, false))
        (purge_paths-IsStable now s (paths_for_slave s v) (v, false) clean h)

  reset_protected_dirs-IsStable : (ps : List Text) (v : Vfs) → P v → P (reset_protected_dirs ps v)
  unfolding reset_protected_dirs reset_protected
  reset_protected_dirs-IsStable [] v h = h
  reset_protected_dirs-IsStable (p ∷ ps) v h = elim (Option-cases (lookup p v.files)) [
    | inl e ↦ rw (e, reset_protected) (reset_protected_dirs-IsStable ps v h)
    | inr (f, e) ↦
        rw (e, reset_protected)
          (reset_protected_dirs-IsStable ps (reset_protected_dir p f v) (st.resets p f v e h))
  ]

  mark_path_unseen-IsStable : (s p : Text) (v : Vfs) → P v → P (mark_path_unseen s p v)
  unfolding mark_path_unseen
  mark_path_unseen-IsStable s p v h = elim (Option-cases (lookup p v.files)) [
    | inl e ↦ rw (e, mark_path_unseen) h
    | inr (f, e) ↦ rw (e, mark_path_unseen) (either_way _ P _ v (st.marks p f v e h) h)
  ]

  mark_each_unseen-IsStable :
      (s : Text) (ps : List Text) (v : Vfs) → P v → P (mark_each_unseen s ps v)
  unfolding mark_each_unseen
  mark_each_unseen-IsStable s [] v h = h
  mark_each_unseen-IsStable s (p ∷ ps) v h =
      mark_each_unseen-IsStable s ps (mark_path_unseen s p v) (mark_path_unseen-IsStable s p v h)

  pub mark_subtree_unseen-IsStable :
      (s root : Text) (v : Vfs) → P v → P (mark_subtree_unseen s root v)
  unfolding mark_subtree_unseen
  mark_subtree_unseen-IsStable s root v h =
      let w = reset_protected_dirs (keys_of v.protected_dirs) v in
      mark_each_unseen-IsStable s (collect_subtree (clean_vfs_path root) w) w
        (reset_protected_dirs-IsStable (keys_of v.protected_dirs) v h)

  purge_below-IsStable :
      (now : ℤ) (s p : Text) (x : Vfs × Bool) → P x.0 → P (purge_below now s p x).0
  unfolding purge_below
  purge_below-IsStable now s p (v, changed) h = elim (Option-cases (lookup p v.files)) [
    | inl e ↦ rw (e, purge_below) h
    | inr (f, e) ↦ rw (e, purge_below) (deleted_if _ changed p v h)
  ]

  purge_each_below-IsStable :
      (now : ℤ) (s : Text) (ps : List Text) (x : Vfs × Bool)
      → P x.0
      → P (purge_each_below now s ps x).0
  unfolding purge_each_below
  purge_each_below-IsStable now s [] x h = h
  purge_each_below-IsStable now s (p ∷ ps) x h =
      purge_each_below-IsStable now s ps (purge_below now s p x) (purge_below-IsStable now s p x h)

  pub purge_unseen_subtree-IsStable :
      (now : ℤ) (s root : Text) (v : Vfs) → P v → P (purge_unseen_subtree now s root v)
  unfolding purge_unseen_subtree
  purge_unseen_subtree-IsStable now s root v h =
      let w = reset_protected_dirs (keys_of v.protected_dirs) v in
      let paths = collect_subtree (clean_vfs_path root) w in
      dirty_if (purge_each_below now s paths (w, false)) (
        purge_each_below-IsStable now s paths (w, false)
          (reset_protected_dirs-IsStable (keys_of v.protected_dirs) v h))

  module _ (now : ℤ) (s : Text) (present : TextSet) (tops : List Text) where
    purge_child-IsStable :
        (c : Text) (x : Vfs × Bool) → P x.0 → P (purge_child now s present tops c x).0
    unfolding purge_child
    purge_child-IsStable c (v, changed) h = elim (Option-cases (lookup c v.files)) [
      | inl e ↦ rw (e, purge_child) h
      | inr (f, e) ↦ rw (e, purge_child) (deleted_if _ changed c v h)
    ]

    purge_children-IsStable :
        (cs : List Text) (x : Vfs × Bool) → P x.0 → P (purge_children now s present tops cs x).0
    unfolding purge_children
    purge_children-IsStable [] x h = h
    purge_children-IsStable (c ∷ cs) x h =
        purge_children-IsStable cs (purge_child now s present tops c x) (purge_child-IsStable c x h)

    pub purge_missing_children-IsStable :
        (dir : Text) (v : Vfs) → P v → P (purge_missing_children now s dir present tops v)
    unfolding purge_missing_children
    purge_missing_children-IsStable dir v h =
        let cs = children_of (clean_vfs_path dir) v in
        dirty_if (purge_children now s present tops cs (v, false))
          (purge_children-IsStable cs (v, false) h)
