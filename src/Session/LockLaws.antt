-- ===== src/Session/LockLaws.antt =====
-- The reservations seen as one lock for each path, with one writer or any number of readers.
use weave_ftpd.Base.{
  ℕ, zero, suc, ◌<◌, ◌≡◌, refl, sym, ap, ◌∙◌, subst, Bool, true, false, Text, text_eq, text_eq_iff,
  lookup, insert, delete, lookup-insert, lookup-delete, Bool-cases, inl, inr, arith, if◌then◌else◌,
  is_some,
}
use weave_ftpd.Base.Int.{ℤ, pos, negsuc, ltb_ℤ, leb_ℤ, ◌+ℤ◌, ◌-ℤ◌}
use weave_ftpd.Base.Int64.{◌+₆₄◌, ◌-₆₄◌, max_int64, wrap64}
use weave_ftpd.GoPath.Clean.{clean}
use weave_ftpd.Session.Reservations.{
  Reservations, is_no_file, zero_if_none, download_count, is_uploading, reserve_upload_path,
  release_upload_path, reserve_download_path, release_download_path,
}
use weave_ftpd.Session.ReservationLaws.{Reachable, Exclusive, Reachable-Exclusive}

-- The lock of one path; `reading n` has `n + 1` readers.
pub data Lock : Type 0 where
  free : Lock
  writing : Lock
  reading : ℕ → Lock

pub data Call : Type 0 where
  lock_write : Call
  unlock_write : Call
  lock_read : Call
  unlock_read : Call

-- What a call makes of the lock of its path, and whether it succeeds.
unfoldable pub act : Call → Lock → Lock × Bool
act lock_write free = (writing, true)
act lock_write writing = (writing, false)
act lock_write (reading n) = (reading n, false)
act unlock_write free = (free, true)
act unlock_write writing = (free, true)
act unlock_write (reading n) = (reading n, true)
act lock_read free = (reading 0, true)
act lock_read writing = (writing, false)
act lock_read (reading n) = (reading (suc n), true)
act unlock_read free = (free, true)
act unlock_read writing = (writing, true)
act unlock_read (reading zero) = (free, true)
act unlock_read (reading (suc n)) = (reading n, true)

-- The same call on the reservations; a release always succeeds.
unfoldable pub run : Call → Text → Reservations → Reservations × Bool
run lock_write p r = reserve_upload_path p r
run unlock_write p r = (release_upload_path p r, true)
run lock_read p r = reserve_download_path p r
run unlock_read p r = (release_download_path p r, true)

-- The lock that two entries of the maps stand for.
unfoldable pub lock_of : Bool → ℤ → Lock
lock_of true n = writing
lock_of false (pos zero) = free
lock_of false (pos (suc n)) = reading n
lock_of false (negsuc n) = free

unfoldable pub lock_at : Text → Reservations → Lock
unfolding lock_of
lock_at q r = lock_of (is_uploading q r) (download_count q r)

module _ (c q : Text) (r : Reservations) where
  -- The lock of `c` becomes this one, and no other changes.
  abbrev Becomes : Lock → Reservations → Type 0
  Becomes l r' = lock_at q r' ≡ (if text_eq c q then l else lock_at q r)

  stays : Becomes (lock_at c r) r
  stays = elim (Bool-cases (text_eq c q)) [
    | inl same ↦ rw same (ap (λ x. lock_at x r) (sym ((text_eq_iff c q).0 same)))
    | inr other ↦ rw other refl
  ]

  put_upload-Becomes : Becomes writing (record r { uploads = insert c tt r.uploads })
  unfolding lock_at is_uploading download_count
  put_upload-Becomes = elim (Bool-cases (text_eq c q)) [
    | inl same ↦ rw (lookup-insert c q tt r.uploads, same) refl
    | inr other ↦ rw (lookup-insert c q tt r.uploads, other) refl
  ]

  drop_upload-Becomes :
      Becomes (lock_of false (download_count c r)) (record r { uploads = delete c r.uploads })
  unfolding lock_at is_uploading download_count
  drop_upload-Becomes = elim (Bool-cases (text_eq c q)) [
    | inl same ↦
        rw (lookup-delete c q r.uploads, same)
          (ap (λ x. lock_of false (zero_if_none (lookup x r.downloads)))
            (sym ((text_eq_iff c q).0 same)))
    | inr other ↦ rw (lookup-delete c q r.uploads, other) refl
  ]

  put_download-Becomes :
      (n : ℤ)
      → Becomes (lock_of (is_uploading c r) n) (record r { downloads = insert c n r.downloads })
  unfolding lock_at is_uploading download_count
  put_download-Becomes n = elim (Bool-cases (text_eq c q)) [
    | inl same ↦
        rw (lookup-insert c q n r.downloads, same)
          (ap (λ x. lock_of (is_some (lookup x r.uploads)) n) (sym ((text_eq_iff c q).0 same)))
    | inr other ↦ rw (lookup-insert c q n r.downloads, other) refl
  ]

  drop_download-Becomes :
      Becomes (lock_of (is_uploading c r) (pos 0)) (record r { downloads = delete c r.downloads })
  unfolding lock_at is_uploading download_count
  drop_download-Becomes = elim (Bool-cases (text_eq c q)) [
    | inl same ↦
        rw (lookup-delete c q r.downloads, same)
          (ap (λ x. lock_of (is_some (lookup x r.uploads)) (pos 0))
            (sym ((text_eq_iff c q).0 same)))
    | inr other ↦ rw (lookup-delete c q r.downloads, other) refl
  ]

  -- The call did to the lock of `c` what it should, and said so.
  Acts : Call → Reservations × Bool → Type 0
  Acts k o = Becomes (act k (lock_at c r)).0 o.0 × (o.1 ≡ (act k (lock_at c r)).1)

  done_by :
      (k : Call) (l l' : Lock) (o : Reservations × Bool)
      → lock_at c r ≡ l
      → act k l ≡ (l', o.1)
      → Becomes l' o.0
      → Acts k o
  unfolding Acts
  done_by k l l' o at_c does becomes =
      let e = ap (act k) at_c ∙ does in
      (
        becomes ∙ ap (λ x. if text_eq c q then x else lock_at q r) (sym (ap (λ y. y.0) e)),
        sym (ap (λ y. y.1) e),
      )

  lock_there :
      (b : Bool) (n : ℕ)
      → is_uploading c r ≡ b
      → download_count c r ≡ pos n
      → lock_at c r ≡ lock_of b (pos n)
  unfolding lock_at
  lock_there b n u d = rw (u, d) refl

  stays_as : (l : Lock) → lock_at c r ≡ l → Becomes l r
  stays_as l e = subst (λ x. Becomes x r) e stays

  drop_upload_as :
      (n : ℤ)
      → download_count c r ≡ n
      → Becomes (lock_of false n) (record r { uploads = delete c r.uploads })
  drop_upload_as n e =
      subst (λ x. Becomes (lock_of false x) (record r { uploads = delete c r.uploads })) e
        drop_upload-Becomes

  put_download_as :
      (b : Bool) (n : ℤ)
      → is_uploading c r ≡ b
      → Becomes (lock_of b n) (record r { downloads = insert c n r.downloads })
  put_download_as b n e =
      subst (λ x. Becomes (lock_of x n) (record r { downloads = insert c n r.downloads })) e
        (put_download-Becomes n)

  drop_download_as :
      (b : Bool)
      → is_uploading c r ≡ b
      → Becomes (lock_of b (pos 0)) (record r { downloads = delete c r.downloads })
  drop_download_as b e =
      subst (λ x. Becomes (lock_of x (pos 0)) (record r { downloads = delete c r.downloads })) e
        drop_download-Becomes

no_more : (n : ℕ) → ltb_ℤ (pos 0) (pos n) ≡ false → n ≡ 0
no_more n h = ground arith

some_left : (n : ℕ) → ltb_ℤ (pos 0) (pos (suc n)) ≡ true
some_left n = ground arith

more_left : (n : ℕ) → leb_ℤ (pos (suc (suc n))) (pos 1) ≡ false
more_left n = ground arith

one_less : (n : ℕ) → suc (suc n) < max_int64 → pos (suc (suc n)) -₆₄ pos 1 ≡ pos (suc n)
unfolding ◌-₆₄◌ wrap64 ◌-ℤ◌
one_less n h = ground arith

one_more : (n : ℕ) → n < max_int64 → pos n +₆₄ pos 1 ≡ pos (suc n)
unfolding ◌+₆₄◌ wrap64 ◌+ℤ◌
one_more n h = ground arith

module _ (p q : Text) (r : Reservations) (file : is_no_file (clean p) ≡ false) where
  abbrev Uploads : Bool → Type 0
  Uploads b = is_uploading (clean p) r ≡ b

  abbrev Downloads : ℕ → Type 0
  Downloads n = download_count (clean p) r ≡ pos n

  done_as :
      (k : Call) (b : Bool) (n : ℕ) (o : Reservations × Bool)
      → Uploads b
      → Downloads n
      → (act k (lock_of b (pos n))).1 ≡ o.1
      → Becomes (clean p) q r (act k (lock_of b (pos n))).0 o.0
      → Acts (clean p) q r k o
  done_as k b n o u d ok becomes =
      let l = lock_of b (pos n) in
      done_by (clean p) q r k l (act k l).0 o (lock_there (clean p) q r b n u d)
        (ap (λ x. ((act k l).0, x)) ok) becomes

  unchanged :
      (b : Bool) (n : ℕ) → Uploads b → Downloads n → Becomes (clean p) q r (lock_of b (pos n)) r
  unchanged b n u d = stays_as (clean p) q r (lock_of b (pos n)) (lock_there (clean p) q r b n u d)

  reserve_upload-Acts :
      (b : Bool) (n : ℕ)
      → Uploads b
      → Downloads n
      → Acts (clean p) q r lock_write (reserve_upload_path p r)
  unfolding reserve_upload_path act lock_of
  reserve_upload-Acts true n u d =
      rw (file, u) (done_as lock_write true n (r, false) u d refl (unchanged true n u d))
  reserve_upload-Acts false zero u d =
      rw (file, u, d)
        (done_as lock_write false 0 (record r { uploads = insert (clean p) tt r.uploads }, true) u d
          refl (put_upload-Becomes (clean p) q r))
  reserve_upload-Acts false (suc n) u d =
      rw (file, u, d, some_left n)
        (done_as lock_write false (suc n) (r, false) u d refl (unchanged false (suc n) u d))

  -- Where a path is uploaded there are no downloads.
  module _ (alone : Exclusive r) where
    none_beside : (n : ℕ) → Uploads true → Downloads n → n ≡ 0
    unfolding Exclusive
    none_beside n u d = no_more n (rw d at (alone (clean p) u))

    release_upload-Acts :
        (b : Bool) (n : ℕ)
        → Uploads b
        → Downloads n
        → Acts (clean p) q r unlock_write (release_upload_path p r, true)
    unfolding release_upload_path act lock_of
    release_upload-Acts true n u d = rw file (
        done_as unlock_write true n _ u d refl
          (drop_upload_as (clean p) q r (pos 0) (d ∙ ap pos (none_beside n u d))))
    release_upload-Acts false zero u d =
        rw file (done_as unlock_write false 0 _ u d refl (drop_upload_as (clean p) q r (pos 0) d))
    release_upload-Acts false (suc n) u d = rw file (
        done_as unlock_write false (suc n) _ u d refl
          (drop_upload_as (clean p) q r (pos (suc n)) d))

    release_download-Acts :
        (b : Bool) (n : ℕ)
        → Uploads b
        → Downloads n
        → n < max_int64
        → Acts (clean p) q r unlock_read (release_download_path p r, true)
    unfolding release_download_path act lock_of
    release_download-Acts true n u d small =
        rw (file, d, none_beside n u d)
          (done_as unlock_read true n _ u d refl (drop_download_as (clean p) q r true u))
    release_download-Acts false zero u d small =
        rw (file, d)
          (done_as unlock_read false 0 _ u d refl (drop_download_as (clean p) q r false u))
    release_download-Acts false (suc zero) u d small =
        rw (file, d)
          (done_as unlock_read false 1 _ u d refl (drop_download_as (clean p) q r false u))
    release_download-Acts false (suc (suc n)) u d small =
        rw (file, d, more_left n, one_less n small)
          (done_as unlock_read false (suc (suc n)) _ u d refl
            (put_download_as (clean p) q r false (pos (suc n)) u))

  reserve_download-Acts :
      (b : Bool) (n : ℕ)
      → Uploads b
      → Downloads n
      → n < max_int64
      → Acts (clean p) q r lock_read (reserve_download_path p r)
  unfolding reserve_download_path act lock_of
  reserve_download-Acts true n u d small =
      rw (file, u) (done_as lock_read true n (r, false) u d refl (unchanged true n u d))
  reserve_download-Acts false zero u d small =
      rw (file, u, d, one_more 0 small)
        (done_as lock_read false 0 _ u d refl (put_download_as (clean p) q r false (pos 1) u))
  reserve_download-Acts false (suc n) u d small =
      rw (file, u, d, one_more (suc n) small)
        (done_as lock_read false (suc n) _ u d refl
          (put_download_as (clean p) q r false (pos (suc (suc n))) u))

-- In every state that the calls reach, for a path that is neither "." nor the root, with a number of
-- downloads below the greatest int64: a call does to the lock of its path what the same call does to a
-- lock with one writer or any number of readers, answers the same, and changes no other path's lock.
pub run_refines-act :
    (k : Call) (p q : Text) (r : Reservations) (n : ℕ)
    → Reachable r
    → is_no_file (clean p) ≡ false
    → download_count (clean p) r ≡ pos n
    → n < max_int64
    → (lock_at q (run k p r).0
        ≡ (if text_eq (clean p) q then (act k (lock_at (clean p) r)).0 else lock_at q r))
      × ((run k p r).1 ≡ (act k (lock_at (clean p) r)).1)
unfolding run Acts
run_refines-act lock_write p q r n h file d small =
    reserve_upload-Acts p q r file (is_uploading (clean p) r) n refl d
run_refines-act unlock_write p q r n h file d small =
    release_upload-Acts p q r file (Reachable-Exclusive h) (is_uploading (clean p) r) n refl d
run_refines-act lock_read p q r n h file d small =
    reserve_download-Acts p q r file (is_uploading (clean p) r) n refl d small
run_refines-act unlock_read p q r n h file d small =
    release_download-Acts p q r file (Reachable-Exclusive h) (is_uploading (clean p) r) n refl d
      small
