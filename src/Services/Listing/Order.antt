-- ===== src/Services/Listing/Order.antt =====
-- Rows in descending order of their ids, and pages of them (services/transfers.py).
use stashd.Prelude.{
  ℕ, zero, suc, ◌<◌, ◌≡◌, refl, sym, ap, subst, ◌∙◌, inl, inr, Bool, true, false, Bool-cases, List,
  [], ◌∷◌, All, All-imp, All-select, select_all, length, select, take, drop, get_elem?, ltb, ltb→lt,
  ◌==◌, some, if◌then◌else◌, arith,
}
use stashd.Models.{Transfer}
use stashd.Services.Retention.Conserved.{DistinctIds}
use stashd.Services.Listing.{insert_newest, newest_first}

-- Every row has a greater id than those after it.
abbrev pub Descending : List Transfer → Type 0
Descending [] = Unit
Descending (t ∷ ts) = All (λ u. u.id < t.id) ts × Descending ts

abbrev Below : ℕ → List Transfer → Type 0
Below n = All (λ u. u.id < n)

insert_newest-Below :
    (n : ℕ) (t : Transfer) (rs : List Transfer)
    → t.id < n
    → Below n rs
    → Below n (insert_newest t rs)
unfolding insert_newest
insert_newest-Below n t [] h b = (h, tt)
insert_newest-Below n t (r ∷ rs) h b = elim (Bool-cases (ltb r.id t.id)) [
  | inl e ↦ rw e (h, b)
  | inr e ↦ rw e (b.0, insert_newest-Below n t rs h b.1)
]

insert_newest-Descending :
    (t : Transfer) (rs : List Transfer)
    → All (λ u. (t.id == u.id) ≡ false) rs
    → Descending rs
    → Descending (insert_newest t rs)
unfolding insert_newest
insert_newest-Descending t [] fresh d = (tt, tt)
insert_newest-Descending t (r ∷ rs) fresh d = elim (Bool-cases (ltb r.id t.id)) [
  | inl e ↦ rw e (
      (
        (
          ltb→lt r.id t.id e,
          All-imp (λ u. u.id < r.id) (λ u. u.id < t.id) rs
              (λ u l. omega (arith, ltb→lt r.id t.id e)) d.0,
        ),
        d,
      ))
  | inr e ↦ rw e (
    insert_newest-Below r.id t rs (ground (arith, fresh.0)) d.0,
    insert_newest-Descending t rs fresh.1 d.1,
  )
]

-- An insertion in front of smaller ids.
insert_newest_front :
    (t : Transfer) (rs : List Transfer) → Below t.id rs → insert_newest t rs ≡ t ∷ rs
unfolding insert_newest
insert_newest_front t [] b = refl
insert_newest_front t (r ∷ rs) b = ground arith

insert_newest-fresh :
    (n : ℕ) (t : Transfer) (rs : List Transfer)
    → (n == t.id) ≡ false
    → All (λ u. (n == u.id) ≡ false) rs
    → All (λ u. (n == u.id) ≡ false) (insert_newest t rs)
unfolding insert_newest
insert_newest-fresh n t [] h f = (h, tt)
insert_newest-fresh n t (r ∷ rs) h f = elim (Bool-cases (ltb r.id t.id)) [
  | inl e ↦ rw e (h, f)
  | inr e ↦ rw e (f.0, insert_newest-fresh n t rs h f.1)
]

newest_first-fresh :
    (n : ℕ) (ts : List Transfer)
    → All (λ u. (n == u.id) ≡ false) ts
    → All (λ u. (n == u.id) ≡ false) (newest_first ts)
unfolding newest_first
newest_first-fresh n [] f = tt
newest_first-fresh n (t ∷ ts) f =
    insert_newest-fresh n t (newest_first ts) f.0 (newest_first-fresh n ts f.1)

pub newest_first-Descending : (ts : List Transfer) → DistinctIds ts → Descending (newest_first ts)
unfolding newest_first
newest_first-Descending [] d = tt
newest_first-Descending (t ∷ ts) d =
    insert_newest-Descending t (newest_first ts) (newest_first-fresh t.id ts d.0)
      (newest_first-Descending ts d.1)

-- Choosing rows before or after sorting.
select-insert_newest :
    (p : Transfer → Bool) (t : Transfer) (rs : List Transfer)
    → Descending rs
    → select p (insert_newest t rs) ≡ (if p t then insert_newest t (select p rs) else select p rs)
unfolding insert_newest
select-insert_newest p t [] d = refl
select-insert_newest p t (r ∷ rs) d = elim (Bool-cases (ltb r.id t.id)) [
  | inl e ↦ rw e (
      ap (λ l. if p t then l else select p (r ∷ rs))
        (sym (
          insert_newest_front t (select p (r ∷ rs)) (
            All-select (λ u. u.id < t.id) p (r ∷ rs)
              (
                ltb→lt r.id t.id e,
                All-imp (λ u. u.id < r.id) (λ u. u.id < t.id) rs
                    (λ u l. omega (arith, ltb→lt r.id t.id e)) d.0,
              )))))
  | inr e ↦ ground (arith, select-insert_newest p t rs d.1)
]

pub select-newest_first :
    (p : Transfer → Bool) (ts : List Transfer)
    → DistinctIds ts
    → newest_first (select p ts) ≡ select p (newest_first ts)
unfolding newest_first
select-newest_first p [] d = refl
select-newest_first p (t ∷ ts) d = sym (
    select-insert_newest p t (newest_first ts) (newest_first-Descending ts d.1)
    ∙ split (select-newest_first p ts d.1))
  where
    split :
        newest_first (select p ts) ≡ select p (newest_first ts)
        → (if p t then insert_newest t (select p (newest_first ts)) else select p (newest_first ts))
          ≡ newest_first (if p t then t ∷ select p ts else select p ts)
    split e = elim (Bool-cases (p t)) [
      | inl h ↦ rw h (ap (insert_newest t) (sym e))
      | inr h ↦ rw h (sym e)
    ]

pub All-get_elem? :
    (P : Transfer → Type 0) (q : ℕ) (ts : List Transfer) (t : Transfer)
    → All P ts
    → get_elem? ts q ≡ some t
    → P t
All-get_elem? P q [] t a h = absurd (ground arith)
All-get_elem? P zero (u ∷ ts) t a h = subst P (ground arith) a.0
All-get_elem? P (suc q) (u ∷ ts) t a h = All-get_elem? P q ts t a.1 h

-- What is below the row at `q` of a descending list is what stands after it.
pub select-below :
    (q : ℕ) (ts : List Transfer) (t : Transfer)
    → Descending ts
    → get_elem? ts q ≡ some t
    → select (λ u. ltb u.id t.id) ts ≡ drop (suc q) ts
select-below q [] t d h = refl
select-below zero (u ∷ ts) t d h =
    let e : u ≡ t = cc h in
    let lower : All (λ v. ltb v.id t.id ≡ true) ts =
      All-imp (λ v. v.id < u.id) (λ v. ltb v.id t.id ≡ true) ts (λ v l. ground arith) d.0 in
    ground (arith, select_all (λ v. ltb v.id t.id) ts lower)
select-below (suc q) (u ∷ ts) t d h =
    let l : t.id < u.id = All-get_elem? (λ v. v.id < u.id) q ts t d.0 h in
    ground (arith, select-below q ts t d.1 h)

pub select-holds : (p : Transfer → Bool) (ts : List Transfer) → All (λ t. p t ≡ true) (select p ts)
select-holds p [] = tt
select-holds p (t ∷ ts) = elim (Bool-cases (p t)) [
  | inl e ↦ rw e (e, select-holds p ts)
  | inr e ↦ rw e (select-holds p ts)
]

pub Descending-select :
    (p : Transfer → Bool) (ts : List Transfer) → Descending ts → Descending (select p ts)
Descending-select p [] d = tt
Descending-select p (t ∷ ts) d = elim (Bool-cases (p t)) [
  | inl e ↦ rw e (All-select (λ u. u.id < t.id) p ts d.0, Descending-select p ts d.1)
  | inr e ↦ rw e (Descending-select p ts d.1)
]

pub DistinctIds-select :
    (p : Transfer → Bool) (ts : List Transfer) → DistinctIds ts → DistinctIds (select p ts)
DistinctIds-select p [] d = tt
DistinctIds-select p (t ∷ ts) d = elim (Bool-cases (p t)) [
  | inl e ↦ rw e (All-select (λ u. (t.id == u.id) ≡ false) p ts d.0, DistinctIds-select p ts d.1)
  | inr e ↦ rw e (DistinctIds-select p ts d.1)
]

-- A page and whether it is the last, of the rows that are left.
pub short :
    (n : ℕ) (ts : List Transfer) → ltb n (length (take (suc n) ts)) ≡ false → take (suc n) ts ≡ ts
short n [] h = refl
short zero (t ∷ ts) h = absurd (ground arith)
short (suc n) (t ∷ ts) h = ap (λ us. t ∷ us) (short n ts (ground arith))

pub last_row :
    (q : ℕ) (ts : List Transfer)
    → ltb (suc q) (length (take (suc (suc q)) ts)) ≡ true
    → (t : Transfer) × (get_elem? (take (suc (suc q)) ts) q ≡ some t)
      × (get_elem? ts q ≡ some t)
      × (length (drop (suc q) ts) < length ts)
last_row q [] h = absurd (ground arith)
last_row zero (t ∷ ts) h = (t, refl, refl, omega arith)
last_row (suc q) (t ∷ ts) h =
    let (u, seen, there, less) = last_row q ts (ground arith) in (u, seen, there, omega arith)

length-insert_newest :
    (t : Transfer) (rs : List Transfer) → length (insert_newest t rs) ≡ suc (length rs)
unfolding insert_newest
length-insert_newest t [] = refl
length-insert_newest t (r ∷ rs) = ground (arith, length-insert_newest t rs)

pub length-newest_first : (ts : List Transfer) → length (newest_first ts) ≡ length ts
unfolding newest_first
length-newest_first [] = refl
length-newest_first (t ∷ ts) =
    omega (arith, length-insert_newest t (newest_first ts), length-newest_first ts)
