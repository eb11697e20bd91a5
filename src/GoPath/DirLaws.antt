-- ===== src/GoPath/DirLaws.antt =====
-- path.Dir on absolute paths drops the last element.
use weave_ftpd.Base.{
  ◌≡◌, refl, sym, ap, ◌∙◌, List, [], ◌∷◌, ◌++◌, true, reverse, append-nil, append_assoc, Text,
  split_byte, All, All-reverse,
}
use mathlib.Core.List.{reverse-append, reverse-cons, reverse-reverse}
use weave_ftpd.GoPath.Clean.{slash, resolve_all, rebuild, clean, dir_part, dir}
use weave_ftpd.GoPath.CleanLaws.{
  NoSlash, IsPlain, flat, path_of, split_append, resolve_of_IsPlain, resolve_all-skip, rebuild_lem,
  clean-path_of,
}

pub flat-append : (segs more : List Text) → flat (segs ++ more) ≡ flat segs ++ flat more
flat-append [] more = refl
flat-append (a ∷ segs) more =
    ap (λ s. b'/' ∷ s) (ap (λ s. a ++ s) (flat-append segs more) ∙ sym (append_assoc a _ _))

pub path_of-concat :
    (segs : List Text) (x : Text) → path_of (segs ++ x ∷ []) ≡ flat segs ++ (b'/' ∷ x)
path_of-concat [] x = ap (λ s. b'/' ∷ s) (append-nil x)
path_of-concat (a ∷ segs) x =
    flat-append (a ∷ segs) (x ∷ []) ∙ ap (λ s. flat (a ∷ segs) ++ b'/' ∷ s) (append-nil x)

split-flat_tail :
    (segs : List Text) (y : Text) (ws : List Text)
    → All IsPlain segs
    → split_byte b'/' y ≡ [] ∷ ws
    → split_byte b'/' (flat segs ++ y) ≡ [] ∷ (segs ++ ws)
unfolding split_byte
split-flat_tail [] y ws h e = e
split-flat_tail (a ∷ segs) y ws (p, h) e =
    ap (λ s. [] ∷ split_byte b'/' s) (append_assoc a (flat segs) y)
    ∙ (ap (λ v. [] ∷ v)
          (split_append a (flat segs ++ y) [] (segs ++ ws) p.no_slash
            (split-flat_tail segs y ws h e))
        ∙ rw append-nil)

resolve_all_tail :
    (stack segs : List Text)
    → All IsPlain segs
    → resolve_all true stack (segs ++ [] ∷ []) ≡ reverse stack ++ segs
unfolding resolve_all
resolve_all_tail stack [] h = resolve_all-skip true stack [] ∙ sym (append-nil _)
resolve_all_tail stack (s ∷ segs) (p, h) =
    ap (λ st. resolve_all true st (segs ++ [] ∷ [])) (resolve_of_IsPlain true stack s p)
    ∙ (resolve_all_tail (s ∷ stack) segs h ∙ simp (reverse-cons, append_assoc))

clean_trailing : (segs : List Text) → All IsPlain segs → clean (flat segs ++ slash) ≡ path_of segs
unfolding clean
clean_trailing [] h = clean-path_of [] tt
clean_trailing (a ∷ segs) h =
    ap (λ ws. rebuild true (resolve_all true [] ws))
      (split-flat_tail (a ∷ segs) slash ([] ∷ []) h refl)
    ∙ (ap (rebuild true)
          (resolve_all-skip true [] (a ∷ segs ++ [] ∷ []) ∙ resolve_all_tail [] (a ∷ segs) h)
        ∙ rebuild_lem (a ∷ segs))

dir_part_append : (y r : Text) → NoSlash y → dir_part (y ++ b'/' ∷ r) ≡ b'/' ∷ r
unfolding dir_part
dir_part_append [] r h = refl
dir_part_append (c ∷ y) r (p, h) = rw p (dir_part_append y r h)

pub reverse_around : (A x : Text) → reverse (A ++ b'/' ∷ x) ≡ reverse x ++ b'/' ∷ reverse A
reverse_around A x =
    reverse-append A (b'/' ∷ x)
    ∙ (ap (λ s. s ++ reverse A) (reverse-cons b'/' x) ∙ append_assoc (reverse x) slash (reverse A))

before_last : (A x : Text) → NoSlash x → reverse (dir_part (reverse (A ++ b'/' ∷ x))) ≡ A ++ slash
before_last A x h =
    ap (λ s. reverse (dir_part s)) (reverse_around A x)
    ∙ (ap reverse (dir_part_append (reverse x) (reverse A) (All-reverse _ x h))
        ∙ (reverse-cons b'/' (reverse A) ∙ ap (λ s. s ++ slash) (reverse-reverse A)))

-- The directory of a path is the path without its last element.
pub dir-path_of :
    (segs : List Text) (x : Text)
    → All IsPlain segs
    → IsPlain x
    → dir (path_of (segs ++ x ∷ [])) ≡ path_of segs
unfolding dir
dir-path_of segs x h p =
    ap (λ s. clean (reverse (dir_part (reverse s)))) (path_of-concat segs x)
    ∙ (ap clean (before_last (flat segs) x p.no_slash) ∙ clean_trailing segs h)

-- The root is its own directory.
pub dir-root : dir slash ≡ slash
unfolding dir
dir-root = refl
