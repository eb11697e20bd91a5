-- ===== src/Base/Texts.antt =====
-- Laws of texts: how they start and end, and the lines that they are split into.
use Prim.Native.Nat.{ℕ}
use mathlib.Core.Path.{◌≡◌, refl, sym, ap, ◌∙◌}
use mathlib.Core.Logic.{◌≢◌}
use mathlib.Core.Bool.{Bool, false}
use mathlib.Core.List.{[], ◌∷◌, ◌++◌, reverse, reverse-reverse}
use weave_ftpd.Base.Tests.{◌==◌}
use weave_ftpd.Base.Lists.{All}
use weave_ftpd.Base.Strings.{Text, has_prefix, split_byte}
use weave_ftpd.Base.Trim.{Starts}

pub no_prefix : (b : ℕ) (s p : Text) → Starts (λ c. c == b) s → has_prefix s (b ∷ p) ≡ false
unfolding has_prefix
no_prefix b [] p h = refl
no_prefix b (a ∷ s) p h = rw h refl

pub Starts-append : (p : ℕ → Bool) (s t : Text) → s ≢ [] → Starts p s → Starts p (s ++ t)
Starts-append p [] t some_bytes h = absurd (some_bytes refl)
Starts-append p (a ∷ s) t some_bytes h = h

pub Starts-of_All : (p : ℕ → Bool) (s : Text) → All (λ c. p c ≡ false) s → Starts p s
Starts-of_All p [] h = tt
Starts-of_All p (a ∷ s) (h, hs) = h

pub reverse-not_empty : (s : Text) → s ≢ [] → reverse s ≢ []
reverse-not_empty s h e = h (sym (reverse-reverse s) ∙ ap reverse e)

abbrev pub NoLineEnd : Text → Type 0
NoLineEnd s = All (λ c. (c == 10) ≡ false) s

pub split-line :
    (a rest : Text) → NoLineEnd a → split_byte 10 (a ++ 10 ∷ rest) ≡ a ∷ split_byte 10 rest
unfolding split_byte
split-line [] rest h = refl
split-line (c ∷ a) rest (h, hs) = rw (h, split-line a rest hs) refl
