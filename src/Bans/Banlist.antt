-- ===== src/Bans/Banlist.antt =====
-- internal/core/banlist.go
use weave_ftpd.Base.{
  List, [], ◌∷◌, ◌++◌, Bool, true, false, ◌||◌, Option, none, some, if◌then◌else◌, leb, ◌==◌, Text,
  codes, text_eq, has_prefix, trim_space, split_byte, equal_fold, is_some, length,
}
use weave_ftpd.Base.Int.{ℤ, pos}
use weave_ftpd.Bans.Decimal.{print_int, scan_int}

pub record UserBanEntry : Type 0 where
  pub user : Text
  pub added : ℤ
  pub by : Text
  pub reason : Text

-- The file, if there is one, and whether the system lets it be read and written.
pub record BanFile : Type 0 where
  pub text : Option Text
  pub is_readable : Bool
  pub is_writable : Bool

-- What stands before the first bar, and what follows it: one step of strings.SplitN.
unfoldable pub cut : Text → Text × Option Text
cut [] = ([], none)
cut (c ∷ s) = let rest = cut s in if c == b'|' then ([], some s) else (c ∷ rest.0, rest.1)

abbrev pub reason_of : Option Text → Text
reason_of none = []
reason_of (some s) = trim_space s

abbrev pub by_of : Option Text → Text × Text
by_of none = ([], [])
by_of (some s) = let parts = cut s in (trim_space parts.0, reason_of parts.1)

abbrev pub added_of : Option Text → ℤ × (Text × Text)
added_of none = (pos 0, ([], []))
added_of (some s) = let parts = cut s in (scan_int (trim_space parts.0), by_of parts.1)

unfoldable pub entry_of : Text → UserBanEntry
entry_of line =
    let parts = cut line in
    let (added, (by, reason)) = added_of parts.1 in
    record { user = trim_space parts.0; added = added; by = by; reason = reason }

-- The entries of the lines, where no line is too long for the scanner.
abbrev pub add_line : Text → Option (List UserBanEntry) → Option (List UserBanEntry)
add_line line none = none
add_line line (some entries) =
    if leb 65536 (length line)
    then none
    else if text_eq (trim_space line) [] || has_prefix (trim_space line) (codes "#")
    then some entries
    else if text_eq (entry_of (trim_space line)).user []
    then some entries
    else some (entry_of (trim_space line) ∷ entries)

unfoldable pub load_lines : List Text → Option (List UserBanEntry)
unfolding entry_of
load_lines [] = some []
load_lines (line ∷ lines) = add_line line (load_lines lines)

-- An error is none.
unfoldable pub load_user_ban_entries : BanFile → Option (List UserBanEntry)
unfolding load_lines
load_user_ban_entries file = elim file.text [
  | none ↦ some []
  | some text ↦ if file.is_readable then load_lines (split_byte 10 text) else none
]

unfoldable pub ban_line : UserBanEntry → Text
ban_line e = e.user ++ b'|' ∷ (print_int e.added ++ b'|' ∷ (e.by ++ b'|' ∷ e.reason))

unfoldable pub ban_text : List UserBanEntry → Text
unfolding ban_line
ban_text [] = []
ban_text (e ∷ es) =
    let rest = ban_text es in
    if text_eq (trim_space e.user) [] then rest else ban_line e ++ 10 ∷ rest

-- The file afterwards, and whether it was written.
unfoldable pub save_user_ban_entries : List UserBanEntry → BanFile → BanFile × Bool
unfolding ban_text
save_user_ban_entries entries file =
    if file.is_writable
    then (record file { text = some (ban_text entries) }, true)
    else (file, false)

unfoldable pub find_entry : Text → List UserBanEntry → Option UserBanEntry
find_entry username [] = none
find_entry username (e ∷ es) = if equal_fold e.user username then some e else find_entry username es

unfoldable pub find_user_ban : Text → BanFile → Option UserBanEntry
unfolding load_user_ban_entries find_entry
find_user_ban username file = elim (load_user_ban_entries file) [
  | none ↦ none
  | some entries ↦ find_entry username entries
]

unfoldable pub add_user_ban : ℤ → Text → Text → Text → BanFile → BanFile × Bool
unfolding find_entry load_user_ban_entries save_user_ban_entries
add_user_ban now username by reason file = elim (load_user_ban_entries file) [
  | none ↦ (file, false)
  | some entries ↦
      if is_some (find_entry username entries)
      then (file, true)
      else save_user_ban_entries
          (entries ++ record { user = username; added = now; by = by; reason = reason } ∷ []) file
]

unfoldable pub without : Text → List UserBanEntry → List UserBanEntry
without username [] = []
without username (e ∷ es) =
    let rest = without username es in if equal_fold e.user username then rest else e ∷ rest

-- The file afterwards, whether an entry was removed, and whether there was no error.
unfoldable pub remove_user_ban : Text → BanFile → BanFile × (Bool × Bool)
unfolding find_entry without load_user_ban_entries save_user_ban_entries
remove_user_ban username file = elim (load_user_ban_entries file) [
  | none ↦ (file, (false, false))
  | some entries ↦
      if is_some (find_entry username entries)
      then (let saved = save_user_ban_entries (without username entries) file in
          (saved.0, (true, saved.1)))
      else (file, (false, true))
]
