-- ===== src/Bans/Examples.antt =====
-- The file of banned users at a concrete entry.
use weave_ftpd.Base.{
  ◌≡◌, refl, [], true, some, none, is_some, codes, text_ne, text_eq, is_space, arith,
}
use weave_ftpd.Base.Int.{pos}
use weave_ftpd.Bans.Decimal.{print_int, digits_from}
use weave_ftpd.Bans.Banlist.{
  UserBanEntry, BanFile, load_user_ban_entries, ban_line, find_user_ban, add_user_ban,
  remove_user_ban,
}
use weave_ftpd.Bans.LineLaws.{IsBanEntry}
use weave_ftpd.Bans.BanLaws.{ban_until_removed}

abbrev no_file : BanFile
no_file = record { text = none; is_readable = true; is_writable = true }

abbrev ban_of_ann : UserBanEntry
ban_of_ann = record {
  user = codes "ann";
  added = pos 90;
  by = codes "root";
  reason = codes "abuse";
}

first_line : ban_line ban_of_ann ≡ codes "ann|90|root|abuse"
unfolding ban_line print_int digits_from
first_line = refl

ann-IsBanEntry : IsBanEntry ban_of_ann
unfolding text_eq is_space ban_line print_int digits_from
ann-IsBanEntry = record {
  named = text_ne (codes "ann") [] refl;
  no_comment = refl;
  user = (refl, refl);
  user_bar = (refl, (refl, (refl, tt)));
  user_line = (refl, (refl, (refl, tt)));
  by = (refl, refl);
  by_bar = (refl, (refl, (refl, (refl, tt))));
  by_line = (refl, (refl, (refl, (refl, tt))));
  reason = (refl, refl);
  reason_line = (refl, (refl, (refl, (refl, (refl, tt)))));
  added = (omega arith, omega arith);
  fits = omega arith;
}

no_file_loads : load_user_ban_entries no_file ≡ some []
unfolding load_user_ban_entries
no_file_loads = refl

ban_until_removed_example :
    (is_some (
        find_user_ban
          (codes "ann")
          (add_user_ban (pos 90) (codes "ann") (codes "root") (codes "abuse") no_file).0)
      ≡ true)
    × (find_user_ban
          (codes "ann")
          (remove_user_ban
            (codes "ann")
            (add_user_ban (pos 90) (codes "ann") (codes "root") (codes "abuse") no_file).0).0
        ≡ none)
ban_until_removed_example =
    ban_until_removed (pos 90) (codes "ann") (codes "root") (codes "abuse") [] no_file
      (record { readable = refl; writable = refl }) no_file_loads tt ann-IsBanEntry
