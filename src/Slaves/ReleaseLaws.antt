-- ===== src/Slaves/ReleaseLaws.antt =====
-- The laws of what the master keeps of a release.
use weave_ftpd.Base.{
  ◌≡◌, refl, sym, ap, List, [], ◌∷◌, Bool, true, false, Text, text_eq, text_eq_iff, trim_space,
  Dict, lookup, insert, lookup-insert, lookup-insert_self, Bool-cases, inl, inr, subst,
}
use weave_ftpd.GoPath.Clean.{clean}
use weave_ftpd.Slaves.Releases.{
  ReleaseState, keys_or_none, is_set, is_claimed, claim_release_announcement,
}

-- Claims one after the other.
unfoldable pub claim_all : List (Text × Text) → ReleaseState → ReleaseState
claim_all [] s = s
claim_all ((d, key) ∷ rest) s = claim_all rest (claim_release_announcement d key s).0

set_claim :
    (k' k : Text) (keys : Dict Bool)
    → is_set (lookup k keys) ≡ true
    → is_set (lookup k (insert k' true keys)) ≡ true
set_claim k' k keys h = elim (Bool-cases (text_eq k' k)) [
  | inl same ↦ rw (lookup-insert k' k true keys, same) refl
  | inr other ↦ rw (lookup-insert k' k true keys, other) h
]

put_claim :
    (d k' c k : Text) (s : ReleaseState)
    → is_claimed c k s ≡ true
    → is_claimed c k (record s {
      announcements =
          insert d (insert k' true (keys_or_none (lookup d s.announcements))) s.announcements;
    })
      ≡ true
unfolding is_claimed
put_claim d k' c k s h = elim (Bool-cases (text_eq d c)) [
  | inl same ↦
      rw
        (
          lookup-insert d c (insert k' true (keys_or_none (lookup d s.announcements)))
              s.announcements,
          same,
        )
        (set_claim k' k (keys_or_none (lookup d s.announcements)) (
          subst (λ x. is_set (lookup k (keys_or_none (lookup x s.announcements))) ≡ true)
            (sym ((text_eq_iff d c).0 same)) h))
  | inr other ↦
      rw
        (
          lookup-insert d c (insert k' true (keys_or_none (lookup d s.announcements)))
              s.announcements,
          other,
        )
        h
]

module _ (d key : Text) where
  claim-is_claimed :
      (s : ReleaseState)
      → text_eq (trim_space key) [] ≡ false
      → is_claimed (clean d) (trim_space key) (claim_release_announcement d key s).0 ≡ true
  unfolding claim_release_announcement is_claimed
  claim-is_claimed s named = elim (Bool-cases (is_claimed (clean d) (trim_space key) s)) [
    | inl taken ↦ rw (named, taken) taken
    | inr open_key ↦
        rw (named, open_key, lookup-insert_self (clean d) _ s.announcements)
          (ap is_set (
            lookup-insert_self (trim_space key) true
              (keys_or_none (lookup (clean d) s.announcements))))
  ]

  -- A further claim, of whatever release and key, takes no claim back.
  claim-keeps :
      (c k : Text) (s : ReleaseState)
      → is_claimed c k s ≡ true
      → is_claimed c k (claim_release_announcement d key s).0 ≡ true
  unfolding claim_release_announcement
  claim-keeps c k s h = elim (Bool-cases (text_eq (trim_space key) [])) [
    | inl blank ↦ rw blank h
    | inr named ↦ elim (Bool-cases (is_claimed (clean d) (trim_space key) s)) [
      | inl taken ↦ rw (named, taken) h
      | inr open_key ↦ rw (named, open_key) (put_claim (clean d) (trim_space key) c k s h)
    ]
  ]

claim_all-keeps :
    (claims : List (Text × Text)) (c k : Text) (s : ReleaseState)
    → is_claimed c k s ≡ true
    → is_claimed c k (claim_all claims s) ≡ true
unfolding claim_all
claim_all-keeps [] c k s h = h
claim_all-keeps ((d, key) ∷ rest) c k s h =
    claim_all-keeps rest c k (claim_release_announcement d key s).0 (claim-keeps d key c k s h)

refused :
    (d key : Text) (s : ReleaseState)
    → text_eq (trim_space key) [] ≡ false
    → is_claimed (clean d) (trim_space key) s ≡ true
    → (claim_release_announcement d key s).1 ≡ false
unfolding claim_release_announcement
refused d key s named taken = rw (named, taken) refl

-- An announcement is claimed at most once: after a claim with a key that is not blank, and any claims
-- after it, the same claim is refused.
pub claim_release_announcement_once :
    (d key : Text) (claims : List (Text × Text)) (s : ReleaseState)
    → text_eq (trim_space key) [] ≡ false
    → (claim_release_announcement d key (claim_all claims (claim_release_announcement d key s).0)).1
      ≡ false
claim_release_announcement_once d key claims s named =
    refused d key (claim_all claims (claim_release_announcement d key s).0) named (
      claim_all-keeps claims (clean d) (trim_space key) (claim_release_announcement d key s).0
        (claim-is_claimed d key s named))
