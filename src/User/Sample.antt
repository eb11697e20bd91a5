-- ===== src/User/Sample.antt =====
-- An account and a calendar to run the definitions on.
use weave_ftpd.Base.{[], ◌∷◌, codes}
use weave_ftpd.Base.Int.{ℤ, pos}
use weave_ftpd.User.Account.{User, no_traffic}
use weave_ftpd.User.Periods.{LocalTime}

abbrev pub ann : User
ann = record {
  name = codes "ann";
  password = [];
  uid = pos 1;
  gid = pos 1;
  flags = codes "3";
  tagline = [];
  home_root = [];
  home_dir = [];
  current_dir = [];
  added = pos 0;
  last_login = pos 5;
  period_anchor = pos 5;
  file_mod_time = pos 5;
  expires = pos 0;
  credits = pos 1000;
  ratio = pos 3;
  groups = [];
  primary_group = codes "staff";
  ips = codes "*@*" ∷ [];
  all_up = record { files = pos 4; bytes = pos 40; meta = pos 0 };
  all_dn = no_traffic;
  wk_up = no_traffic;
  wk_dn = no_traffic;
  day_up = record { files = pos 1; bytes = pos 10; meta = pos 0 };
  day_dn = no_traffic;
  month_up = no_traffic;
  month_dn = no_traffic;
  nuke_stat = record { files = pos 2; bytes = pos 20; meta = pos 0 };
  login_slots = pos 2;
  max_sim = pos 0;
  upload_slots = pos 0;
  download_slots = pos 0;
  weekly_allotment = pos 0;
}

-- A calendar in which each instant is a day of its own in one month and week.
abbrev pub sample_local : ℤ → LocalTime
sample_local t = record {
  year = pos 2024;
  month = pos 2;
  day = t;
  iso_year = pos 2024;
  iso_week = pos 7;
}
