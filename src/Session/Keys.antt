-- ===== src/Session/Keys.antt =====
-- The primary key of the filesets: each id is one row's.
use stashd.Prelude.{
  ℕ, ◌≡◌, refl, sym, ap, ◌∙◌, Bool, true, false, List, [], ◌∷◌, All, find_first, some, ◌==◌, ==_iff,
  inl, inr, Bool-cases, arith,
}
use stashd.Models.{Fileset}
use stashd.Session.Ledger.{weigh, Weighs}

abbrev pub Keyed : List Fileset → Type 0
Keyed [] = Unit
Keyed (r ∷ rows) = All (λ q. (q.id == r.id) ≡ false) rows × Keyed rows

some_eq : (a b : Fileset) → some a ≡ some b → a ≡ b
some_eq a b e = ground arith

module _ (p : Fileset → Bool) (id : ℕ) where
  none-Weighs :
      (r : Fileset) (w : ℕ) (rows : List Fileset)
      → (r.id == id) ≡ true
      → All (λ q. (q.id == r.id) ≡ false) rows
      → Weighs p id w rows
  none-Weighs r w [] e h = tt
  none-Weighs r w (q ∷ rows) e (hq, h) = (λ e'. absurd (ground arith), none-Weighs r w rows e h)

  -- All rows of one id weigh the same.
  pub Keyed-Weighs : (rows : List Fileset) → Keyed rows → (w : ℕ) × Weighs p id w rows
  Keyed-Weighs [] k = (0, tt)
  Keyed-Weighs (r ∷ rows) (h, k) = elim (Bool-cases (r.id == id)) [
    | inl e ↦ (weigh p r, ((λ _. refl), none-Weighs r (weigh p r) rows e h))
    | inr e ↦ let (w, rest) = Keyed-Weighs rows k in (w, ((λ e'. absurd (ground arith)), rest))
  ]

  -- The row that is found has the id, and its weight.
  pub find-Weighs :
      (w : ℕ) (rows : List Fileset) (g : Fileset)
      → find_first (λ r. r.id == id) rows ≡ some g
      → Weighs p id w rows
      → (g.id ≡ id) × (weigh p g ≡ w)
  find-Weighs w [] g e h = absurd (ground arith)
  find-Weighs w (r ∷ rows) g e (hr, h) = elim (Bool-cases (r.id == id)) [
    | inl q ↦
        let found = some_eq r g (rw q at e) in
        (ap (λ x. x.id) (sym found) ∙ (==_iff r.id id).0 q, ap (weigh p) (sym found) ∙ hr q)
    | inr q ↦ find-Weighs w rows g (rw q at e) h
  ]
