-- ===== src/Vfs/StartLaws.antt =====
-- The shape of the tree and the slave index at the start.
use weave_ftpd.Base.{
  ◌≡◌, inl, inr, refl, sym, List, [], false, Text, text_eq, text_eq_iff, lookup, insert, Bool-cases,
}
use weave_ftpd.GoPath.Clean.{slash}
use weave_ftpd.Vfs.State.{new_vfs}
use weave_ftpd.Vfs.Tree.{child_set}
use weave_ftpd.Vfs.Index.{slave_set, mark_persist_dirty}
use weave_ftpd.Vfs.Start.{configured_vfs}
use weave_ftpd.Vfs.IndexLaws.{is_indexed}
use weave_ftpd.Vfs.IndexedLaws.{IsIndexed, Listed, trim_nil}
use weave_ftpd.Vfs.LinkLaws.{is_child, IsTree}

module _ (protected hidden excluded : List Text) where
  no_links : (d c : Text) → is_child d c (configured_vfs protected hidden excluded) ≡ false
  unfolding is_child child_set configured_vfs mark_persist_dirty new_vfs lookup insert
  no_links d c = elim (Bool-cases (text_eq slash d)) [
    | inl same ↦ rw same refl
    | inr other ↦ rw other refl
  ]

  pub configured_vfs-IsTree : IsTree (configured_vfs protected hidden excluded)
  unfolding configured_vfs mark_persist_dirty new_vfs lookup insert
  configured_vfs-IsTree = record {
    links = λ d c i. cc (no_links d c, i);
    entries = λ q f e. elim (Bool-cases (text_eq slash q)) [
      | inl same ↦ inl (sym ((text_eq_iff slash q).0 same))
      | inr other ↦ cc (rw other at e)
    ];
  }

  pub configured_vfs-IsIndexed : IsIndexed (configured_vfs protected hidden excluded)
  unfolding configured_vfs mark_persist_dirty new_vfs Listed is_indexed slave_set lookup text_eq
  configured_vfs-IsIndexed = record {
    entries = λ q. elim (Bool-cases (text_eq slash q)) [
      | inl same ↦ rw same (([], tt, (text_eq_iff slash q).0 same), trim_nil, rw trim_nil refl)
      | inr other ↦ rw other tt
    ];
    paths = λ s q. inl refl;
  }
