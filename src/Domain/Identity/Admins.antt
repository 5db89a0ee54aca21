-- ===== src/Domain/Identity/Admins.antt =====
-- Who is an admin (domain/identity.py).
use stashd.Prelude.{ℕ, same, ◌≡◌, refl, Bool, ◌||◌, List, [], ◌∷◌, any, ◌==◌, arith}
use stashd.Domain.Identity.{
  Principal, Group, number, named, is_one_of, names_of, numbers_of, is_admin,
}

-- Whether the principal is in one listed group: by its primary or a further gid, or by name.
abbrev pub member_of : Principal → Group → Bool
member_of p (number n) = p.gid == n || is_one_of n p.gids
member_of p (named g) = any (λ h. same h g) p.groups

groups_split :
    (p : Principal) (gs : List Group)
    → (any (λ g. any (λ h. same h g) p.groups) (names_of gs)
        || any (λ n. is_one_of n (p.gid ∷ p.gids)) (numbers_of gs))
      ≡ any (member_of p) gs
unfolding names_of numbers_of
groups_split p [] = refl
groups_split p (named g ∷ gs) = ground (arith, groups_split p gs)
groups_split p (number n ∷ gs) = ground (arith, groups_split p gs)

-- An admin is uid 0, a listed uid, or a member of a listed group, entry by entry; the code sorts
-- the entries into names and numbers first.
pub is_admin-eq-member_of :
    (p : Principal) (admin_uids : List ℕ) (admin_gids : List Group)
    → is_admin p admin_uids admin_gids
      ≡ (p.uid == 0 || is_one_of p.uid admin_uids || any (member_of p) admin_gids)
unfolding is_admin
is_admin-eq-member_of p admin_uids admin_gids = ground (arith, groups_split p admin_gids)
