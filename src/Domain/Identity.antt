-- ===== src/Domain/Identity.antt =====
-- domain/identity.py: who is asking, and whether they are an admin.
pub mod Admins
use stashd.Prelude.{ℕ, Text, same, Bool, ◌&&◌, ◌||◌, List, [], ◌∷◌, any, ◌==◌}

pub record Principal : Type 0 where
  pub uid : ℕ
  pub gid : ℕ
  pub username : Text
  pub groups : List Text
  pub gids : List ℕ

-- An entry of `admin_gids`: a group by gid or by name.
pub data Group : Type 0 where
  number : ℕ → Group
  named : Text → Group

abbrev pub is_one_of : ℕ → List ℕ → Bool
is_one_of n l = any (λ m. m == n) l

-- `{group for group in admin_gids if isinstance(group, str)}`, and the same for `int`.
unfoldable pub names_of : List Group → List Text
names_of [] = []
names_of (named g ∷ gs) = g ∷ names_of gs
names_of (number n ∷ gs) = names_of gs

unfoldable pub numbers_of : List Group → List ℕ
numbers_of [] = []
numbers_of (named g ∷ gs) = numbers_of gs
numbers_of (number n ∷ gs) = n ∷ numbers_of gs

unfoldable pub is_admin : Principal → List ℕ → List Group → Bool
unfolding same names_of numbers_of
is_admin p admin_uids admin_gids =
    p.uid == 0
    || is_one_of p.uid admin_uids
    || any (λ g. any (λ h. same h g) p.groups) (names_of admin_gids)
    || any (λ n. is_one_of n (p.gid ∷ p.gids)) (numbers_of admin_gids)
