-- ===== src/Session/Counts.antt =====
-- internal/core/session_registry.go: the counts of sessions and transfers that limits are held
-- against. The sessions are a list in the order in which Range visits them.
use weave_ftpd.Base.{
  ℕ, ◌+◌, List, [], ◌∷◌, Bool, false, ◌&&◌, ◌||◌, not, Option, none, some, if◌then◌else◌, Text,
  text_eq, trim_space, to_lower, equal_fold,
}
use weave_ftpd.User.Account.{User, is_in_group}

-- The part of a Session that the counts read; `user` is none for a nil pointer.
pub record Session : Type 0 where
  pub is_logged : Bool
  pub user : Option User
  pub transfer_direction : Text
  pub transfer_path : Text

unfoldable pub count_if : (Session → Bool) → List Session → ℕ
count_if p [] = 0
count_if p (s ∷ rest) = let n = count_if p rest in if p s then n + 1 else n

-- The session is logged in and its user passes the test.
with_user : (User → Bool) → Option User → Bool
with_user p none = false
with_user p (some u) = p u

unfoldable pub is_of : Text → Session → Bool
unfolding with_user
is_of username s = s.is_logged && with_user (λ u. equal_fold u.name username) s.user

unfoldable pub is_of_group : Text → Session → Bool
unfolding with_user
is_of_group group s = s.is_logged && with_user (λ u. is_in_group u group) s.user

unfoldable pub transfers : Text → Session → Bool
transfers direction s =
    equal_fold s.transfer_direction direction && not (text_eq (trim_space s.transfer_path) [])

unfoldable pub has_transfer : Session → Bool
has_transfer s =
    not (text_eq (trim_space s.transfer_path) [])
    && not (text_eq (trim_space s.transfer_direction) [])

unfoldable pub count_transfers_for_user : Text → Text → List Session → ℕ
count_transfers_for_user username direction sessions =
    let u = trim_space username in
    let d = to_lower (trim_space direction) in
    if text_eq u [] || text_eq d [] then 0 else count_if (λ s. is_of u s && transfers d s) sessions

unfoldable pub count_sessions_for_user : Text → List Session → ℕ
count_sessions_for_user username sessions =
    let u = trim_space username in if text_eq u [] then 0 else count_if (is_of u) sessions

unfoldable pub count_transfers_for_user_all_directions : Text → List Session → ℕ
count_transfers_for_user_all_directions username sessions =
    let u = trim_space username in
    if text_eq u [] then 0 else count_if (λ s. is_of u s && has_transfer s) sessions

unfoldable pub count_sessions_for_group : Text → List Session → ℕ
count_sessions_for_group group sessions =
    let g = trim_space group in if text_eq g [] then 0 else count_if (is_of_group g) sessions
