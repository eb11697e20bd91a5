-- ===== src/Port/TargetLaws.antt =====
-- Which arguments of PORT are taken, and what comes of them.
use weave_ftpd.Base.{
  ℕ, suc, ◌≤◌, ◌≡◌, refl, ◌∙◌, subst, List, [], ◌∷◌, Bool, true, false, ◌&&◌, ◌||◌, Option, none,
  some, is_some, ◌==◌, ==_iff, Text, trim_space, length, arith, All, Bool-cases, inl, inr,
}
use weave_ftpd.Base.Int.{ℤ, pos, pos_part, ltb_ℤ, leb_ℤ}
use weave_ftpd.Port.Target.{
  atoi, octet_of, octet, add_octet, octets, target, target_of, port_parts, parse_port_target,
}

-- A number from 0 to 255.
abbrev pub in_range : Option ℤ → Bool
in_range none = false
in_range (some n) = leb_ℤ (pos 0) n && leb_ℤ n (pos 255)

abbrev pub all_in_range : List Text → Bool
all_in_range [] = true
all_in_range (part ∷ parts) = in_range (atoi (trim_space part)) && all_in_range parts

-- Bytes, as many as these.
abbrev pub AreBytes : List ℕ → Type 0
AreBytes ns = All (λ n. n ≤ 255) ns

-- Four bytes and a port of 16 bits.
unfoldable pub IsTarget : Option (List ℕ × ℕ) → Type 0
IsTarget none = Unit
IsTarget (some (ip, port)) = (length ip ≡ 4) × AreBytes ip × (port ≤ 65535)

octet_of-is_some : (o : Option ℤ) → is_some (octet_of o) ≡ in_range o
octet_of-is_some none = refl
octet_of-is_some (some n) = ground arith

-- The bytes that were read, if they were: as many as there are elements.
IsRead : ℕ → Option (List ℕ) → Type 0
IsRead n none = Unit
IsRead n (some ns) = (length ns ≡ n) × AreBytes ns

byte_of : (n : ℤ) → (ltb_ℤ n (pos 0) || ltb_ℤ (pos 255) n) ≡ false → pos_part n ≤ 255
byte_of n h = ground arith

with_byte :
    (n : ℕ)
    → n ≤ 255
    → (ns : Option (List ℕ)) (k : ℕ) → IsRead k ns
    → IsRead (suc k) (add_octet (some n) ns)
unfolding IsRead
with_byte n b none k h = tt
with_byte n b (some ns) k (e, h) = (omega (arith, e), (b, h))

add_octet-IsRead :
    (o : Option ℤ) (ns : Option (List ℕ)) (k : ℕ)
    → IsRead k ns
    → IsRead (suc k) (add_octet (octet_of o) ns)
unfolding IsRead
add_octet-IsRead none ns k h = tt
add_octet-IsRead (some n) ns k h = elim (Bool-cases (ltb_ℤ n (pos 0) || ltb_ℤ (pos 255) n)) [
  | inl out ↦ rw out tt
  | inr within ↦ rw within (with_byte (pos_part n) (byte_of n within) ns k h)
]

octets-IsRead : (parts : List Text) → IsRead (length parts) (octets parts)
unfolding octets octet IsRead
octets-IsRead [] = (refl, tt)
octets-IsRead (part ∷ parts) =
    add_octet-IsRead (atoi (trim_space part)) (octets parts) (length parts) (octets-IsRead parts)

add_octet-is_some :
    (o : Option ℕ) (ns : Option (List ℕ)) → is_some (add_octet o ns) ≡ (is_some o && is_some ns)
add_octet-is_some none ns = refl
add_octet-is_some (some n) none = refl
add_octet-is_some (some n) (some ns) = refl

octets-is_some : (parts : List Text) → is_some (octets parts) ≡ all_in_range parts
unfolding octets octet
octets-is_some [] = refl
octets-is_some (part ∷ parts) =
    add_octet-is_some (octet_of (atoi (trim_space part))) (octets parts)
    ∙ rw (octet_of-is_some (atoi (trim_space part)), octets-is_some parts) refl

target_of-IsTarget :
    (o : Option (List ℕ))
    → IsRead 6 o
    → (is_some (target_of o) ≡ is_some o) × IsTarget (target_of o)
unfolding IsRead IsTarget target
target_of-IsTarget none h = (refl, tt)
target_of-IsTarget (some []) (e, h) = absurd (omega (arith, e))
target_of-IsTarget (some (a ∷ [])) (e, h) = absurd (omega (arith, e))
target_of-IsTarget (some (a ∷ b ∷ [])) (e, h) = absurd (omega (arith, e))
target_of-IsTarget (some (a ∷ b ∷ c ∷ [])) (e, h) = absurd (omega (arith, e))
target_of-IsTarget (some (a ∷ b ∷ c ∷ d ∷ [])) (e, h) = absurd (omega (arith, e))
target_of-IsTarget (some (a ∷ b ∷ c ∷ d ∷ p ∷ [])) (e, h) = absurd (omega (arith, e))
target_of-IsTarget (some (a ∷ b ∷ c ∷ d ∷ p ∷ q ∷ [])) (e, (ha, (hb, (hc, (hd, (hp, (hq, h))))))) =
    (refl, (refl, (ha, (hb, (hc, (hd, tt)))), omega (arith, hp, hq)))
target_of-IsTarget (some (a ∷ b ∷ c ∷ d ∷ p ∷ q ∷ n ∷ ns)) (e, h) = absurd (omega (arith, e))

-- PORT is refused exactly where its argument, cut at the commas, is not six numbers from 0 to 255; the
-- target of any other argument has an address of four bytes and a port of at most 65535.
pub parse_port_target_lem :
    (arg : Text)
    → (is_some (parse_port_target arg)
        ≡ (length (port_parts arg) == 6 && all_in_range (port_parts arg)))
      × IsTarget (parse_port_target arg)
unfolding parse_port_target IsTarget
parse_port_target_lem arg =
    let parts = port_parts arg in
    elim (Bool-cases (length parts == 6)) [
      | inr other ↦ rw other (refl, tt)
      | inl six ↦
          let t = target_of-IsTarget (octets parts) (
            subst (λ n. IsRead n (octets parts)) ((==_iff (length parts) 6).0 six)
              (octets-IsRead parts)) in
          rw six (t.0 ∙ octets-is_some parts, t.1)
    ]
