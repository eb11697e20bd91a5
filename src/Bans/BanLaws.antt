-- ===== src/Bans/BanLaws.antt =====
-- The file of banned users, saved and loaded, and the bans in it.
use weave_ftpd.Base.{
  either_way, Starts-append, no_prefix, split-line, ◌<◌, ◌≡◌, ◌≢◌, refl, ap, ◌∙◌, List, [], ◌∷◌,
  ◌++◌, Bool, true, false, none, some, leb, is_some, ℕ, Text, arith, length, text_eq, text_eq_of_ne,
  text_eq_refl, trim_space, trim_left, trim_right, All, All-append, trim_space_of_IsTrimmed,
  split_byte, equal_fold, to_lower, Bool-cases, inl, inr, Starts, ◌==◌, Option-cases,
}
use weave_ftpd.Base.Int.{ℤ}
use weave_ftpd.Bans.Banlist.{
  UserBanEntry, BanFile, add_line, load_lines, load_user_ban_entries, ban_line, ban_text,
  save_user_ban_entries, find_entry, find_user_ban, add_user_ban, without, remove_user_ban,
}
use weave_ftpd.Bans.LineLaws.{IsBanEntry, ban_line-IsTrimmed, ban_line-NoLineEnd, entry_of-ban_line}

abbrev pub AreBanEntries : List UserBanEntry → Type 0
AreBanEntries es = All IsBanEntry es

not_longer : (n : ℕ) → n < 65536 → leb 65536 n ≡ false
not_longer n h = ground arith

ban_line-Starts : (e : UserBanEntry) → IsBanEntry e → Starts (λ c. c == b'#') (ban_line e)
unfolding ban_line
ban_line-Starts e h = Starts-append (λ c. c == b'#') e.user _ h.named h.no_comment

nil_append : (a r : Text) → a ≢ [] → a ++ r ≢ []
nil_append [] r h e = h refl
nil_append (c ∷ a) r h e = cc e

ban_line_some : (e : UserBanEntry) → IsBanEntry e → ban_line e ≢ []
unfolding ban_line
ban_line_some e h = nil_append e.user _ h.named

line_added :
    (e : UserBanEntry) (es : List UserBanEntry)
    → IsBanEntry e
    → add_line (ban_line e) (some es) ≡ some (e ∷ es)
line_added e es h =
    rw
      (
        not_longer (length (ban_line e)) h.fits,
        trim_space_of_IsTrimmed (ban_line e) (ban_line-IsTrimmed e h),
        text_eq_of_ne (ban_line e) [] (ban_line_some e h),
        no_prefix b'#' (ban_line e) [] (ban_line-Starts e h),
        entry_of-ban_line e h,
        text_eq_of_ne e.user [] h.named,
      )
      refl

empty_file : load_lines ([] ∷ []) ≡ some []
unfolding load_lines trim_space trim_left trim_right text_eq
empty_file = refl

load_line :
    (e : UserBanEntry) (es : List UserBanEntry) (lines : List Text)
    → IsBanEntry e
    → load_lines lines ≡ some es
    → load_lines (ban_line e ∷ lines) ≡ some (e ∷ es)
unfolding load_lines
load_line e es lines h k = ap (add_line (ban_line e)) k ∙ line_added e es h

load_lines-ban_text :
    (es : List UserBanEntry) → AreBanEntries es → load_lines (split_byte 10 (ban_text es)) ≡ some es
unfolding ban_text split_byte
load_lines-ban_text [] h = empty_file
load_lines-ban_text (e ∷ es) (h, hs) =
    rw (trim_space_of_IsTrimmed e.user h.user, text_eq_of_ne e.user [] h.named)
      (ap load_lines (split-line (ban_line e) (ban_text es) (ban_line-NoLineEnd e h))
        ∙ load_line e es (split_byte 10 (ban_text es)) h (load_lines-ban_text es hs))

-- A file that the system lets be read and written.
pub record IsOpen (file : BanFile) : Type 0 where
  pub readable : file.is_readable ≡ true
  pub writable : file.is_writable ≡ true

-- What SaveUserBanEntries writes, LoadUserBanEntries reads back.
pub load-save :
    (es : List UserBanEntry) (file : BanFile)
    → IsOpen file
    → AreBanEntries es
    → load_user_ban_entries (save_user_ban_entries es file).0 ≡ some es
unfolding load_user_ban_entries save_user_ban_entries
load-save es file o h = rw (o.writable, o.readable) (load_lines-ban_text es h)

saved-IsOpen :
    (es : List UserBanEntry) (file : BanFile)
    → IsOpen file
    → IsOpen (save_user_ban_entries es file).0
unfolding save_user_ban_entries
saved-IsOpen es file o =
    either_way file.is_writable (λ (x : BanFile × Bool). IsOpen x.0)
      (record file { text = some (ban_text es) }, true) (file, false)
      (record { readable = o.readable; writable = o.writable }) o

find_loaded :
    (u : Text) (file : BanFile) (es : List UserBanEntry)
    → load_user_ban_entries file ≡ some es
    → find_user_ban u file ≡ find_entry u es
unfolding find_user_ban
find_loaded u file es e = rw (e, find_user_ban) refl

equal_fold_refl : (u : Text) → equal_fold u u ≡ true
unfolding equal_fold
equal_fold_refl u = text_eq_refl (to_lower u)

find-append :
    (u : Text) (es : List UserBanEntry) (e : UserBanEntry)
    → equal_fold e.user u ≡ true
    → is_some (find_entry u (es ++ e ∷ [])) ≡ true
unfolding find_entry
find-append u [] e h = rw h refl
find-append u (f ∷ es) e h = elim (Bool-cases (equal_fold f.user u)) [
  | inl here ↦ rw here refl
  | inr other ↦ rw other (find-append u es e h)
]

find-without : (u : Text) (es : List UserBanEntry) → find_entry u (without u es) ≡ none
unfolding find_entry without
find-without u [] = refl
find-without u (e ∷ es) = elim (Bool-cases (equal_fold e.user u)) [
  | inl here ↦ rw here (find-without u es)
  | inr other ↦ rw (other, other) (find-without u es)
]

without-AreBanEntries :
    (u : Text) (es : List UserBanEntry) → AreBanEntries es → AreBanEntries (without u es)
unfolding without
without-AreBanEntries u [] h = tt
without-AreBanEntries u (e ∷ es) (h, hs) = elim (Bool-cases (equal_fold e.user u)) [
  | inl here ↦ rw here (without-AreBanEntries u es hs)
  | inr other ↦ rw other (h, without-AreBanEntries u es hs)
]

-- A user that was not banned is found after AddUserBan, whatever others were banned.
find-add :
    (now : ℤ) (u by reason : Text) (es : List UserBanEntry) (file : BanFile)
    → IsOpen file
    → load_user_ban_entries file ≡ some es
    → AreBanEntries es
    → IsBanEntry (record { user = u; added = now; by = by; reason = reason })
    → is_some (find_user_ban u (add_user_ban now u by reason file).0) ≡ true
unfolding add_user_ban
find-add now u by reason es file o e h k =
    let new : UserBanEntry = record { user = u; added = now; by = by; reason = reason } in
    elim (Bool-cases (is_some (find_entry u es))) [
      | inl banned ↦ rw (e, add_user_ban, banned) (ap is_some (find_loaded u file es e) ∙ banned)
      | inr open_to ↦
          rw (e, add_user_ban, open_to)
            (ap is_some (
                find_loaded u (save_user_ban_entries (es ++ new ∷ []) file).0 (es ++ new ∷ []) (
                  load-save (es ++ new ∷ []) file o
                    (All-append IsBanEntry es (new ∷ []) h (k, tt))))
              ∙ find-append u es new (equal_fold_refl u))
    ]

find-remove :
    (u : Text) (es : List UserBanEntry) (file : BanFile)
    → IsOpen file
    → load_user_ban_entries file ≡ some es
    → AreBanEntries es
    → find_user_ban u (remove_user_ban u file).0 ≡ none
unfolding remove_user_ban
find-remove u es file o e h = elim (Option-cases (find_entry u es)) [
  | inl missing ↦ rw (e, remove_user_ban, missing) (find_loaded u file es e ∙ missing)
  | inr (f, found) ↦
      rw (e, remove_user_ban, found)
        (find_loaded u (save_user_ban_entries (without u es) file).0 (without u es)
            (load-save (without u es) file o (without-AreBanEntries u es h))
          ∙ find-without u es)
]

-- After AddUserBan the file holds entries that can be read back.
added_there :
    (now : ℤ) (u by reason : Text) (es : List UserBanEntry) (file : BanFile)
    → IsOpen file
    → load_user_ban_entries file ≡ some es
    → AreBanEntries es
    → IsBanEntry (record { user = u; added = now; by = by; reason = reason })
    → let banned = (add_user_ban now u by reason file).0 in
      IsOpen banned
      × ((fs : List UserBanEntry) × (load_user_ban_entries banned ≡ some fs) × AreBanEntries fs)
unfolding add_user_ban
added_there now u by reason es file o e h k =
    let new : UserBanEntry = record { user = u; added = now; by = by; reason = reason } in
    let fs = es ++ new ∷ [] in
    let good = All-append IsBanEntry es (new ∷ []) h (k, tt) in
    elim (Bool-cases (is_some (find_entry u es))) [
      | inl banned ↦ rw (e, add_user_ban, banned) (o, (es, e, h))
      | inr open_to ↦
          rw (e, add_user_ban, open_to)
            (saved-IsOpen fs file o, (fs, load-save fs file o good, good))
    ]

-- Where the file can be read and written and its entries are read back from what is written for them,
-- AddUserBan of such an entry bans the user, and RemoveUserBan after it lifts the ban.
pub ban_until_removed :
    (now : ℤ) (u by reason : Text) (es : List UserBanEntry) (file : BanFile)
    → IsOpen file
    → load_user_ban_entries file ≡ some es
    → AreBanEntries es
    → IsBanEntry (record { user = u; added = now; by = by; reason = reason })
    → (is_some (find_user_ban u (add_user_ban now u by reason file).0) ≡ true)
      × (find_user_ban u (remove_user_ban u (add_user_ban now u by reason file).0).0 ≡ none)
ban_until_removed now u by reason es file o e h k =
    let (still_open, (fs, loaded, good)) = added_there now u by reason es file o e h k in
    (
      find-add now u by reason es file o e h k,
      find-remove u fs (add_user_ban now u by reason file).0 still_open loaded good,
    )
