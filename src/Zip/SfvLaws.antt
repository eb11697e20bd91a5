-- ===== src/Zip/SfvLaws.antt =====
-- The lines of SFV files, written and read.
use weave_ftpd.Base.{
  no_prefix, Starts-append, Starts-of_All, reverse-not_empty, ℕ, ◌+◌, ◌-◌, ◌^◌, ◌<◌, ◌≤◌,
  All-reverse, ◌≡◌, ◌≢◌, refl, sym, ap, ◌∙◌, subst, [], ◌∷◌, ◌++◌, reverse, append_assoc, Bool,
  true, false, some, ltb, Text, arith, length, length-append, text_eq_of_ne, All, has_prefix,
  trim_prefix, trim_left, trim_right, is_space, Starts, IsTrimmed, trim_space_of_IsTrimmed,
  trim_left_of_Starts, ◌==◌,
}
use mathlib.Core.List.{reverse-append, reverse-reverse}
use weave_ftpd.Zip.Sfv.{
  bom, is_space_byte, is_line_end, take, drop, ends_in_space, named_entry, trimmed_entry,
  parse_local_sfv_entry_line,
}
use weave_ftpd.Zip.HexLaws.{hex_digits, length-hex_digits, hex_digits-All, parse_hex-hex_digits}

-- A name that the line of an SFV file can hold: no white space at its ends, and no comment.
pub record IsEntryName (s : Text) : Type 0 where
  pub not_empty : s ≢ []
  pub start : Starts is_space s
  pub end : Starts is_space_byte (reverse s)
  pub no_comment : Starts (λ c. c == b';') s
  pub no_mark : Starts (λ c. c == 239) s

-- fmt's "%s %08X"
unfoldable pub sfv_line : Text → ℕ → Text
sfv_line name crc = name ++ 32 ∷ hex_digits 8 crc

pub trim_right_of_Starts : (p : ℕ → Bool) (s : Text) → Starts p (reverse s) → trim_right p s ≡ s
unfolding trim_right
trim_right_of_Starts p s h = ap reverse (trim_left_of_Starts p (reverse s) h) ∙ reverse-reverse s

-- One more space is cut off.
trim_right-space :
    (p : ℕ → Bool) (s : Text) → Starts p (reverse s) → p 32 ≡ true → trim_right p (s ++ 32 ∷ []) ≡ s
unfolding trim_right trim_left
trim_right-space p s h k =
    ap (λ t. reverse (trim_left p t)) (reverse-append s (32 ∷ []))
    ∙ rw k (trim_right_of_Starts p s h)

take-append : (a b : Text) → take (length a) (a ++ b) ≡ a
unfolding take
take-append [] b = refl
take-append (c ∷ a) b = ap (λ s. c ∷ s) (take-append a b)

drop-append : (a b : Text) → drop (length a) (a ++ b) ≡ b
unfolding drop
drop-append [] b = refl
drop-append (c ∷ a) b = drop-append a b

pub trim_prefix_of_false : (s p : Text) → has_prefix s p ≡ false → trim_prefix s p ≡ s
unfolding trim_prefix
trim_prefix_of_false s p h = rw h refl

-- A text that ends in these bytes ends in none that is cut off.
Starts-reverse :
    (p : ℕ → Bool) (s t : Text) → t ≢ [] → All (λ c. p c ≡ false) t → Starts p (reverse (s ++ t))
Starts-reverse p s t some_bytes h = subst (Starts p) (sym (reverse-append s t)) (
    Starts-append p (reverse t) (reverse s) (reverse-not_empty t some_bytes)
      (Starts-of_All p (reverse t) (All-reverse (λ c. p c ≡ false) t h)))

pub All-weaker :
    (p q : ℕ → Bool) (s : Text)
    → ((c : ℕ) → q c ≡ false → p c ≡ false)
    → All (λ c. q c ≡ false) s
    → All (λ c. p c ≡ false) s
All-weaker p q [] w h = tt
All-weaker p q (a ∷ s) w (h, hs) = (w a h, All-weaker p q s w hs)

line_end_is_space : (c : ℕ) → is_space_byte c ≡ false → is_line_end c ≡ false
unfolding is_space_byte
line_end_is_space c h = ground arith

space_is_space : (c : ℕ) → is_space_byte c ≡ false → is_space c ≡ false
unfolding is_space_byte is_space
space_is_space c h = ground arith

weaker_start : (s : Text) → Starts is_space_byte s → Starts is_space s
weaker_start [] h = tt
weaker_start (a ∷ s) h = space_is_space a h

not_shorter : (m n : ℕ) → n ≤ m → ltb m n ≡ false
not_shorter m n h = ground arith

module _ (name : Text) (crc : ℕ) (h : IsEntryName name) (k : crc < 2 ^ 32) where
  abbrev hex : Text
  hex = hex_digits 8 crc

  abbrev line : Text
  line = sfv_line name crc

  some_hex : hex ≢ []
  some_hex e = omega (arith, length-hex_digits 8 crc, ap length e)

  line_parts : line ≡ (name ++ 32 ∷ []) ++ hex
  unfolding sfv_line
  line_parts = sym (append_assoc name (32 ∷ []) hex)

  line-end :
      (p : ℕ → Bool) → ((c : ℕ) → is_space_byte c ≡ false → p c ≡ false) → Starts p (reverse line)
  line-end p w =
      subst (λ s. Starts p (reverse s)) (sym line_parts)
        (Starts-reverse p (name ++ 32 ∷ []) hex some_hex
          (All-weaker p is_space_byte hex w (hex_digits-All 8 crc)))

  line-start : (p : ℕ → Bool) → Starts p name → Starts p line
  unfolding sfv_line
  line-start p = Starts-append p name (32 ∷ hex) h.not_empty

  line-length : length line ≡ length name + 9
  unfolding sfv_line
  line-length = omega (arith, length-append name (32 ∷ hex), length-hex_digits 8 crc)

  line_named : line ≢ []
  line_named e = omega (arith, line-length, ap length e)

  before_hex : length line - 8 ≡ length (name ++ 32 ∷ [])
  before_hex = omega (arith, line-length, length-append name (32 ∷ []))

  taken : take (length line - 8) line ≡ name ++ 32 ∷ []
  taken =
      ap (λ n. take n line) before_hex
      ∙ (ap (take (length (name ++ 32 ∷ []))) line_parts ∙ take-append (name ++ 32 ∷ []) hex)

  dropped : drop (length line - 8) line ≡ hex
  dropped =
      ap (λ n. drop n line) before_hex
      ∙ (ap (drop (length (name ++ 32 ∷ []))) line_parts ∙ drop-append (name ++ 32 ∷ []) hex)

  spaced : ends_in_space (name ++ 32 ∷ []) ≡ true
  unfolding ends_in_space is_space_byte
  spaced = rw (reverse-append name (32 ∷ []), ends_in_space) refl

  name-IsTrimmed : IsTrimmed name
  name-IsTrimmed = (h.start, weaker_start (reverse name) h.end)

  named : named_entry (name ++ 32 ∷ []) (some crc) ≡ some (name, crc)
  unfolding named_entry is_space_byte
  named =
      rw
        (
          trim_right-space is_space_byte name h.end refl,
          trim_space_of_IsTrimmed name name-IsTrimmed,
          trim_prefix_of_false name bom (no_prefix 239 name (187 ∷ 191 ∷ []) h.no_mark),
          spaced,
          text_eq_of_ne name [] h.not_empty,
        )
        refl

  trimmed : trimmed_entry line ≡ some (name, crc)
  unfolding trimmed_entry
  trimmed =
      rw
        (
          not_shorter (length line) 8 (omega (arith, line-length)),
          taken,
          dropped,
          parse_hex-hex_digits crc k,
        )
        named

  -- ParseLocalSFVEntryLine reads back the name and the checksum of a line "name checksum" with eight
  -- hexadecimal digits.
  pub parse-sfv_line : parse_local_sfv_entry_line (sfv_line name crc) ≡ some (name, crc)
  unfolding parse_local_sfv_entry_line
  parse-sfv_line =
      rw
        (
          trim_right_of_Starts is_line_end line (line-end is_line_end line_end_is_space),
          trim_prefix_of_false line bom
              (no_prefix 239 line (187 ∷ 191 ∷ []) (line-start (λ c. c == 239) h.no_mark)),
          trim_space_of_IsTrimmed line
              (line-start is_space h.start, line-end is_space space_is_space),
          text_eq_of_ne line [] line_named,
          trim_left_of_Starts is_space line (line-start is_space h.start),
          no_prefix b';' line [] (line-start (λ c. c == b';') h.no_comment),
          not_shorter (length line) 9 (omega (arith, line-length)),
          trim_right_of_Starts is_space_byte line (line-end is_space_byte (λ c e. e)),
        )
        trimmed
