-- ===== src/Bans/LineLaws.antt =====
-- The lines of the file of banned users.
use weave_ftpd.Base.{
  Starts-append, Starts-of_All, reverse-not_empty, NoLineEnd, ℕ, ◌+◌, ◌<◌, ◌≡◌, ◌≢◌, refl, sym,
  subst, [], ◌∷◌, ◌++◌, reverse, true, false, some, ◌==◌, Text, arith, length, is_space, All,
  All-append, All-reverse, Starts, IsTrimmed, trim_space_of_IsTrimmed,
}
use mathlib.Core.List.{reverse-append, reverse-cons}
use weave_ftpd.Base.Int.{ℤ, pos, negsuc}
use weave_ftpd.Base.Int64.{InRange}
use weave_ftpd.Bans.Decimal.{is_digit, digits_from, print_int}
use weave_ftpd.Bans.DecimalLaws.{digits_from-AreDigits, scan_int-print_int}
use weave_ftpd.Bans.Banlist.{UserBanEntry, cut, entry_of, ban_line}

abbrev NoBar : Text → Type 0
NoBar s = All (λ c. (c == b'|') ≡ false) s

-- An entry whose line says what it is: no bar in the names, no line end, no white space at the ends, and
-- a line that the scanner takes.
pub record IsBanEntry (e : UserBanEntry) : Type 0 where
  pub named : e.user ≢ []
  pub no_comment : Starts (λ c. c == b'#') e.user
  pub user : IsTrimmed e.user
  pub user_bar : NoBar e.user
  pub user_line : NoLineEnd e.user
  pub by : IsTrimmed e.by
  pub by_bar : NoBar e.by
  pub by_line : NoLineEnd e.by
  pub reason : IsTrimmed e.reason
  pub reason_line : NoLineEnd e.reason
  pub added : InRange e.added
  pub fits : length (ban_line e) < 65536

cut-bar : (a r : Text) → NoBar a → cut (a ++ b'|' ∷ r) ≡ (a, some r)
unfolding cut
cut-bar [] r h = refl
cut-bar (c ∷ a) r (h, hs) = rw (h, cut-bar a r hs) refl

-- The bytes of a printed number.
IsPrinted : ℕ → Type 0
IsPrinted c = (is_space c ≡ false) × ((c == b'|') ≡ false) × ((c == 10) ≡ false)

digit-IsPrinted : (c : ℕ) → is_digit c ≡ true → IsPrinted c
unfolding IsPrinted is_digit is_space
digit-IsPrinted c h = (ground arith, ground arith, ground arith)

All-of : (P Q : ℕ → Type 0) (s : Text) → ((c : ℕ) → P c → Q c) → All P s → All Q s
All-of P Q [] w h = tt
All-of P Q (c ∷ s) w (h, hs) = (w c h, All-of P Q s w hs)

printed : (z : ℤ) → All IsPrinted (print_int z)
unfolding print_int IsPrinted is_space
printed (pos n) =
    All-of (λ c. is_digit c ≡ true) IsPrinted (digits_from 20 n) digit-IsPrinted
      (digits_from-AreDigits 20 n)
printed (negsuc n) = (
  (refl, refl, refl),
  All-of (λ c. is_digit c ≡ true) IsPrinted (digits_from 20 (n + 1)) digit-IsPrinted
      (digits_from-AreDigits 20 (n + 1)),
)

printed-IsTrimmed : (z : ℤ) → IsTrimmed (print_int z)
unfolding IsPrinted
printed-IsTrimmed z =
    let spaceless =
      All-of IsPrinted (λ c. is_space c ≡ false) (print_int z) (λ c h. h.0) (printed z) in
    (
      Starts-of_All is_space (print_int z) spaceless,
      Starts-of_All is_space (reverse (print_int z))
          (All-reverse (λ c. is_space c ≡ false) (print_int z) spaceless),
    )

printed-NoBar : (z : ℤ) → NoBar (print_int z)
unfolding IsPrinted
printed-NoBar z = All-of IsPrinted (λ c. (c == b'|') ≡ false) (print_int z) (λ c h. h.1) (printed z)

printed-NoLineEnd : (z : ℤ) → NoLineEnd (print_int z)
unfolding IsPrinted
printed-NoLineEnd z =
    All-of IsPrinted (λ c. (c == 10) ≡ false) (print_int z) (λ c h. h.2) (printed z)

-- The end of a text after a bar.
EndsWell : Text → Type 0
EndsWell s = Starts is_space (reverse s)

first_or_bar : (r : Text) → Starts is_space r → Starts is_space (r ++ b'|' ∷ [])
unfolding is_space
first_or_bar [] h = refl
first_or_bar (c ∷ r) h = h

bar-EndsWell : (s : Text) → EndsWell s → EndsWell (b'|' ∷ s)
unfolding EndsWell is_space
bar-EndsWell s h = subst (Starts is_space) (sym (reverse-cons b'|' s)) (first_or_bar (reverse s) h)

after-EndsWell : (a s : Text) → EndsWell (b'|' ∷ s) → EndsWell (a ++ b'|' ∷ s)
unfolding EndsWell
after-EndsWell a s h = subst (Starts is_space) (sym (reverse-append a (b'|' ∷ s))) (
    Starts-append is_space (reverse (b'|' ∷ s)) (reverse a)
      (reverse-not_empty (b'|' ∷ s) (λ e. cc e)) h)

module _ (e : UserBanEntry) (h : IsBanEntry e) where
  pub ban_line-IsTrimmed : IsTrimmed (ban_line e)
  unfolding ban_line EndsWell
  ban_line-IsTrimmed =
      let last = e.by ++ b'|' ∷ e.reason in
      let later = print_int e.added ++ b'|' ∷ last in
      (
        Starts-append is_space e.user (b'|' ∷ later) h.named h.user.0,
        after-EndsWell e.user later (
            bar-EndsWell later (
              after-EndsWell (print_int e.added) last (
                bar-EndsWell last
                  (after-EndsWell e.by e.reason (bar-EndsWell e.reason h.reason.1))))),
      )

  pub ban_line-NoLineEnd : NoLineEnd (ban_line e)
  unfolding ban_line
  ban_line-NoLineEnd =
      let P : ℕ → Type 0 = λ c. (c == 10) ≡ false in
      let last = e.by ++ b'|' ∷ e.reason in
      All-append P e.user (b'|' ∷ (print_int e.added ++ b'|' ∷ last)) h.user_line (
        refl,
        All-append P (print_int e.added) (b'|' ∷ last) (printed-NoLineEnd e.added)
            (refl, All-append P e.by (b'|' ∷ e.reason) h.by_line (refl, h.reason_line)),
      )

  pub entry_of-ban_line : entry_of (ban_line e) ≡ e
  unfolding entry_of ban_line
  entry_of-ban_line =
      rw
        (
          cut-bar e.user (print_int e.added ++ b'|' ∷ (e.by ++ b'|' ∷ e.reason)) h.user_bar,
          cut-bar (print_int e.added) (e.by ++ b'|' ∷ e.reason) (printed-NoBar e.added),
          cut-bar e.by e.reason h.by_bar,
          trim_space_of_IsTrimmed e.user h.user,
          trim_space_of_IsTrimmed (print_int e.added) (printed-IsTrimmed e.added),
          scan_int-print_int e.added h.added,
          trim_space_of_IsTrimmed e.by h.by,
          trim_space_of_IsTrimmed e.reason h.reason,
        )
        refl
