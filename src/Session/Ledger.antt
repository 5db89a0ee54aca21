-- ===== src/Session/Ledger.antt =====
-- The sum of a row's figures over the filesets of a selection, and what a change of a row does to it.
use stashd.Prelude.{
  ℕ, ◌+◌, ◌≤◌, ◌≡◌, refl, sym, ap, subst, ◌∙◌, ◌<◌, Bool, true, List, [], ◌∷◌, ◌++◌, select, sum_of,
  All, ◌==◌, if◌then◌else◌, inl, inr, Bool-cases, arith,
}
use stashd.Session.{writes}
use stashd.Session.Keeps.{Keeps, Keeps-writes}
use stashd.Models.{Fileset, Db}
use stashd.Session.Rows.{put_row_fileset, put_fileset}

module _ (p : Fileset → Bool) where
  -- What a row adds to the sum.
  abbrev pub weigh : Fileset → ℕ
  weigh f = if p f then f.allocated_bytes else 0

  abbrev pub total : List Fileset → ℕ
  total rows = sum_of (λ f. f.allocated_bytes) (select p rows)

  pub total-∷ : (f : Fileset) (rows : List Fileset) → total (f ∷ rows) ≡ weigh f + total rows
  total-∷ f rows = elim (Bool-cases (p f)) [ inl e ↦ rw e omega arith | inr e ↦ rw e omega arith ]

  pub total-append : (xs ys : List Fileset) → total (xs ++ ys) ≡ total xs + total ys
  total-append [] ys = omega arith
  total-append (x ∷ xs) ys = omega (arith, total-append xs ys, total-∷ x xs, total-∷ x (xs ++ ys))

  -- Every row with the id `id` weighs `w`.
  abbrev pub Weighs : ℕ → ℕ → List Fileset → Type 0
  Weighs id w rows = All (λ r. (r.id == id) ≡ true → weigh r ≡ w) rows

  pub total-put-le :
      (f : Fileset) (w : ℕ) (rows : List Fileset)
      → Weighs f.id w rows
      → weigh f ≤ w
      → total (put_row_fileset f rows) ≤ total rows
  total-put-le f w [] h e = omega arith
  total-put-le f w (r ∷ rows) (hr, h) e =
      let rest = total-put-le f w rows h e in
      elim (Bool-cases (r.id == f.id)) [
        | inl q ↦
            rw q omega (arith, rest, hr q, e, total-∷ r rows, total-∷ f (put_row_fileset f rows))
        | inr q ↦ rw q omega (arith, rest, total-∷ r rows, total-∷ r (put_row_fileset f rows))
      ]

  pub total-put :
      (f : Fileset) (w : ℕ) (rows : List Fileset)
      → Weighs f.id w rows
      → weigh f ≡ w
      → total (put_row_fileset f rows) ≡ total rows
  total-put f w [] h e = refl
  total-put f w (r ∷ rows) (hr, h) e =
      let rest = total-put f w rows h e in
      elim (Bool-cases (r.id == f.id)) [
        | inl q ↦
            rw q omega (arith, rest, hr q, e, total-∷ r rows, total-∷ f (put_row_fileset f rows))
        | inr q ↦ rw q omega (arith, rest, total-∷ r rows, total-∷ r (put_row_fileset f rows))
      ]

  pub Weighs-put :
      (id w : ℕ) (f : Fileset) (rows : List Fileset)
      → Weighs id w rows
      → weigh f ≡ w
      → Weighs id w (put_row_fileset f rows)
  Weighs-put id w f [] h e = tt
  Weighs-put id w f (r ∷ rows) (hr, h) e =
      let rest = Weighs-put id w f rows h e in
      elim (Bool-cases (r.id == f.id)) [ inl q ↦ rw q (λ _. e, rest) | inr q ↦ rw q (hr, rest) ]

  -- The rows of one id weigh `w`, and all of them together `n`.
  abbrev pub Balance : ℕ → ℕ → ℕ → List Fileset → Type 0
  Balance id w n rows = Weighs id w rows × (total rows ≡ n)

  pub Balance-put :
      (f : Fileset) (id w n : ℕ) (rows : List Fileset)
      → f.id ≡ id
      → weigh f ≡ w
      → Balance id w n rows
      → Balance id w n (put_row_fileset f rows)
  Balance-put f id w n rows q e (h, t) = (
    Weighs-put id w f rows h e,
    total-put f w rows (subst (λ i. Weighs i w rows) (sym q) h) e ∙ t,
  )

  pub Keeps-put_fileset :
      (f : Fileset) (id w n : ℕ)
      → f.id ≡ id
      → weigh f ≡ w
      → Keeps (λ db. Balance id w n db.filesets) (writes (put_fileset f))
  Keeps-put_fileset f id w n q e =
      Keeps-writes (put_fileset f) (λ db h. Balance-put f id w n db.filesets q e h)

-- The fileset is the row of its id.
abbrev pub IsRow : Fileset → Db → Type 0
IsRow f db = All (λ r. (r.id == f.id) ≡ true → r ≡ f) db.filesets

pub IsRow-Weighs :
    (p : Fileset → Bool) (f : Fileset) (rows : List Fileset)
    → All (λ r. (r.id == f.id) ≡ true → r ≡ f) rows
    → Weighs p f.id (weigh p f) rows
IsRow-Weighs p f [] h = tt
IsRow-Weighs p f (r ∷ rows) (hr, h) = (λ q. ap (weigh p) (hr q), IsRow-Weighs p f rows h)

-- The next id of the sequence is no row's.
abbrev pub Fresh : Db → Type 0
Fresh db = All (λ r. r.id < db.next_fileset) db.filesets

module _ (p : Fileset → Bool) where
  pub Fresh-Weighs :
      (id w : ℕ) (rows : List Fileset) → All (λ r. r.id < id) rows → Weighs p id w rows
  Fresh-Weighs id w [] h = tt
  Fresh-Weighs id w (r ∷ rows) (hr, h) = (λ q. absurd (ground arith), Fresh-Weighs id w rows h)

  pub Weighs-append :
      (id w : ℕ) (xs ys : List Fileset)
      → Weighs p id w xs
      → Weighs p id w ys
      → Weighs p id w (xs ++ ys)
  Weighs-append id w [] ys h k = k
  Weighs-append id w (x ∷ xs) ys (hx, h) k = (hx, Weighs-append id w xs ys h k)

  pub Weighs-select :
      (id w : ℕ) (q : Fileset → Bool) (rows : List Fileset)
      → Weighs p id w rows
      → Weighs p id w (select q rows)
  Weighs-select id w q [] h = tt
  Weighs-select id w q (r ∷ rows) (hr, h) =
      let rest = Weighs-select id w q rows h in
      elim (Bool-cases (q r)) [ inl e ↦ rw e (hr, rest) | inr e ↦ rw e rest ]

  pub total-select-le :
      (q : Fileset → Bool) (rows : List Fileset) → total p (select q rows) ≤ total p rows
  total-select-le q [] = omega arith
  total-select-le q (r ∷ rows) =
      let rest = total-select-le q rows in
      elim (Bool-cases (q r)) [
        | inl e ↦ rw e omega (arith, rest, total-∷ p r rows, total-∷ p r (select q rows))
        | inr e ↦ rw e omega (arith, rest, total-∷ p r rows)
      ]

  -- The rows of one id weigh at most `w`, and all of them together `n`.
  abbrev pub Bounded : ℕ → ℕ → ℕ → List Fileset → Type 0
  Bounded id w n rows = Weighs p id w rows × (total p rows ≤ n)

  pub weigh-le : (f : Fileset) → weigh p f ≤ f.allocated_bytes
  weigh-le f = elim (Bool-cases (p f)) [ inl e ↦ rw e omega arith | inr e ↦ rw e omega arith ]
