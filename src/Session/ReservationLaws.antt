-- ===== src/Session/ReservationLaws.antt =====
-- Uploads and downloads exclude each other, whatever the order of the calls.
use weave_ftpd.Base.{
  [], ◌≡◌, refl, ◌∙◌, Bool, true, false, ◌||◌, is_some, Text, text_eq, text_eq_iff, lookup, insert,
  delete, lookup-insert, lookup-delete, Bool-cases, inl, inr, arith, sym, ap, subst,
}
use weave_ftpd.Base.Int.{ℤ, pos, ltb_ℤ, leb_ℤ}
use weave_ftpd.Base.Int64.{◌+₆₄◌, ◌-₆₄◌}
use weave_ftpd.GoPath.Clean.{clean}
use weave_ftpd.Session.Reservations.{
  Reservations, is_no_file, download_count, is_uploading, reserve_upload_path, release_upload_path,
  upload_path_reserved, reserve_download_path, release_download_path, download_path_reserved,
}

-- The states that calls of the four functions lead to, in any order.
pub data Reachable : Reservations → Type 0 where
  start : Reachable (record { uploads = []; downloads = [] })
  reserve_upload :
      {r : Reservations} (p : Text) → Reachable r → Reachable (reserve_upload_path p r).0
  release_upload : {r : Reservations} (p : Text) → Reachable r → Reachable (release_upload_path p r)
  reserve_download :
      {r : Reservations} (p : Text) → Reachable r → Reachable (reserve_download_path p r).0
  release_download :
      {r : Reservations} (p : Text) → Reachable r → Reachable (release_download_path p r)

or_false : {a b : Bool} → (a || b) ≡ false → (a ≡ false) × (b ≡ false)
or_false h = ground arith

-- No path is uploaded and downloaded at once.
unfoldable pub Exclusive : Reservations → Type 0
Exclusive r = (q : Text) → is_uploading q r ≡ true → ltb_ℤ (pos 0) (download_count q r) ≡ false

module _ (r : Reservations) (h : Exclusive r) (p : Text) where
  put_upload :
      (is_uploading p r || ltb_ℤ (pos 0) (download_count p r)) ≡ false
      → Exclusive (record r { uploads = insert p tt r.uploads })
  unfolding Exclusive is_uploading download_count
  put_upload free q u = elim (Bool-cases (text_eq p q)) [
    | inl same ↦
        subst (λ k. ltb_ℤ (pos 0) (download_count k r) ≡ false) ((text_eq_iff p q).0 same)
          (or_false free).1
    | inr other ↦ h q (sym (ap is_some (lookup-insert p q tt r.uploads ∙ rw other refl)) ∙ u)
  ]

  drop_upload : Exclusive (record r { uploads = delete p r.uploads })
  unfolding Exclusive is_uploading download_count
  drop_upload q u = elim (Bool-cases (text_eq p q)) [
    | inl same ↦ cc (rw (lookup-delete p q r.uploads, same) at u)
    | inr other ↦ h q (rw (lookup-delete p q r.uploads, other) at u)
  ]

  put_download :
      (n : ℤ)
      → is_uploading p r ≡ false
      → Exclusive (record r { downloads = insert p n r.downloads })
  unfolding Exclusive is_uploading download_count
  put_download n free q u = elim (Bool-cases (text_eq p q)) [
    | inl same ↦ cc (rw (← (text_eq_iff p q).0 same) at u, free)
    | inr other ↦ rw (lookup-insert p q n r.downloads, other) (h q u)
  ]

  drop_download : Exclusive (record r { downloads = delete p r.downloads })
  unfolding Exclusive is_uploading download_count
  drop_download q u = elim (Bool-cases (text_eq p q)) [
    | inl same ↦ rw (lookup-delete p q r.downloads, same) (ground arith)
    | inr other ↦ rw (lookup-delete p q r.downloads, other) (h q u)
  ]

positive_of_more : (n : ℤ) → leb_ℤ n (pos 1) ≡ false → ltb_ℤ (pos 0) n ≡ false → ⊥
positive_of_more n h k = ground arith

not_uploading :
    (r : Reservations) (c : Text)
    → Exclusive r
    → leb_ℤ (download_count c r) (pos 1) ≡ false
    → is_uploading c r ≡ false
unfolding Exclusive
not_uploading r c h more = elim (Bool-cases (is_uploading c r)) [
  | inl u ↦ absurd (positive_of_more (download_count c r) more (h c u))
  | inr free ↦ free
]

module _ (r : Reservations) (h : Exclusive r) (p : Text) where
  reserve_upload-Exclusive : Exclusive (reserve_upload_path p r).0
  unfolding reserve_upload_path
  reserve_upload-Exclusive =
      let c = clean p in
      elim (Bool-cases (is_no_file c)) [
        | inl e ↦ rw e h
        | inr e ↦ elim (Bool-cases (is_uploading c r || ltb_ℤ (pos 0) (download_count c r))) [
          | inl busy ↦ rw (e, busy) h
          | inr free ↦ rw (e, free) (put_upload r h c free)
        ]
      ]

  release_upload-Exclusive : Exclusive (release_upload_path p r)
  unfolding release_upload_path
  release_upload-Exclusive = elim (Bool-cases (is_no_file (clean p))) [
    | inl e ↦ rw e h
    | inr e ↦ rw e (drop_upload r h (clean p))
  ]

  reserve_download-Exclusive : Exclusive (reserve_download_path p r).0
  unfolding reserve_download_path
  reserve_download-Exclusive =
      let c = clean p in
      elim (Bool-cases (is_no_file c)) [
        | inl e ↦ rw e h
        | inr e ↦ elim (Bool-cases (is_uploading c r)) [
          | inl busy ↦ rw (e, busy) h
          | inr free ↦ rw (e, free) (put_download r h c (download_count c r +₆₄ pos 1) free)
        ]
      ]

  -- Where a count of more than one is left, no upload can hold the path.
  release_download-Exclusive : Exclusive (release_download_path p r)
  unfolding release_download_path
  release_download-Exclusive =
      let c = clean p in
      elim (Bool-cases (is_no_file c)) [
        | inl e ↦ rw e h
        | inr e ↦ elim (Bool-cases (leb_ℤ (download_count c r) (pos 1))) [
          | inl last ↦ rw (e, last) (drop_download r h c)
          | inr more ↦
              rw (e, more)
                (put_download r h c (download_count c r -₆₄ pos 1) (not_uploading r c h more))
        ]
      ]

pub Reachable-Exclusive : {r : Reservations} → Reachable r → Exclusive r
unfolding Exclusive is_uploading lookup
Reachable-Exclusive start = λ q u. cc u
Reachable-Exclusive (reserve_upload p h) = reserve_upload-Exclusive _ (Reachable-Exclusive h) p
Reachable-Exclusive (release_upload p h) = release_upload-Exclusive _ (Reachable-Exclusive h) p
Reachable-Exclusive (reserve_download p h) = reserve_download-Exclusive _ (Reachable-Exclusive h) p
Reachable-Exclusive (release_download p h) = release_download-Exclusive _ (Reachable-Exclusive h) p

-- In any state that calls of the four functions lead to, in any order, a path that is reserved for an
-- upload is not reserved for a download.
pub upload_excludes_download :
    (r : Reservations) (p : Text)
    → Reachable r
    → upload_path_reserved p r ≡ true
    → download_path_reserved p r ≡ false
unfolding upload_path_reserved download_path_reserved Exclusive
upload_excludes_download r p h u = elim (Bool-cases (is_no_file (clean p))) [
  | inl e ↦ rw e refl
  | inr e ↦ rw e (Reachable-Exclusive h (clean p) (rw e at u))
]
