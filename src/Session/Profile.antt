-- ===== src/Session/Profile.antt =====
-- What each fileset weighs, by its id, with the sum of the weights: an invariant that a session keeps
-- through any number of changes of rows.
use stashd.Prelude.{
  ℕ, ◌≡◌, refl, sym, ap, ◌∙◌, Bool, List, [], ◌∷◌, All, map, find_first, some, ◌==◌, ==_iff, inl,
  inr, Bool-cases, arith,
}
use stashd.Models.{Fileset}
use stashd.Session.Rows.{put_row_fileset}
use stashd.Session.Ledger.{weigh, total, total-∷, Weighs, total-put}
use stashd.Session.Keys.{Keyed, Keyed-Weighs, find-Weighs}

module _ (p : Fileset → Bool) where
  -- Each row weighs what `w` says of its id, and all of them together `n`.
  abbrev pub Profile : (ℕ → ℕ) → ℕ → List Fileset → Type 0
  Profile w n rows = All (λ r. weigh p r ≡ w r.id) rows × (total p rows ≡ n)

  Profile-Weighs :
      (w : ℕ → ℕ) (id : ℕ) (rows : List Fileset)
      → All (λ r. weigh p r ≡ w r.id) rows
      → Weighs p id (w id) rows
  Profile-Weighs w id [] h = tt
  Profile-Weighs w id (r ∷ rows) (hr, h) =
      (λ e. hr ∙ ap w ((==_iff r.id id).0 e), Profile-Weighs w id rows h)

  weighed :
      (w : ℕ → ℕ) (rows : List Fileset)
      → ((id : ℕ) → Weighs p id (w id) rows)
      → All (λ r. weigh p r ≡ w r.id) rows
  weighed w [] h = tt
  weighed w (r ∷ rows) h = ((h r.id).0 ((==_iff r.id r.id).1 refl), weighed w rows (λ id. (h id).1))

  -- Rows whose ids are a key have a profile.
  pub Keyed-Profile :
      (rows : List Fileset) → Keyed rows → (w : ℕ → ℕ) × Profile w (total p rows) rows
  Keyed-Profile rows k =
      let w = λ (id : ℕ). (Keyed-Weighs p id rows k).0 in
      (w, (weighed w rows (λ id. (Keyed-Weighs p id rows k).1), refl))

  -- The row that is found has the id, and weighs what the profile says.
  pub find-Profile :
      (w : ℕ → ℕ) (n id : ℕ) (rows : List Fileset) (g : Fileset)
      → find_first (λ r. r.id == id) rows ≡ some g
      → Profile w n rows
      → (g.id ≡ id) × (weigh p g ≡ w id)
  find-Profile w n id rows g e h = find-Weighs p id (w id) rows g e (Profile-Weighs w id rows h.0)

  put_row-weighed :
      (w : ℕ → ℕ) (f : Fileset) (rows : List Fileset)
      → weigh p f ≡ w f.id
      → All (λ r. weigh p r ≡ w r.id) rows
      → All (λ r. weigh p r ≡ w r.id) (put_row_fileset f rows)
  put_row-weighed w f [] e h = tt
  put_row-weighed w f (r ∷ rows) e (hr, h) =
      let rest = put_row-weighed w f rows e h in
      elim (Bool-cases (r.id == f.id)) [ inl q ↦ rw q (e, rest) | inr q ↦ rw q (hr, rest) ]

  -- A row is put back with its weight.
  pub Profile-put :
      (w : ℕ → ℕ) (n : ℕ) (f : Fileset) (rows : List Fileset)
      → weigh p f ≡ w f.id
      → Profile w n rows
      → Profile w n (put_row_fileset f rows)
  Profile-put w n f rows e (h, t) = (
    put_row-weighed w f rows e h,
    total-put p f (w f.id) rows (Profile-Weighs w f.id rows h) e ∙ t,
  )

  map-weighed :
      (w : ℕ → ℕ) (g : Fileset → Fileset) (rows : List Fileset)
      → ((r : Fileset) → ((g r).id ≡ r.id) × (weigh p (g r) ≡ weigh p r))
      → All (λ r. weigh p r ≡ w r.id) rows
      → All (λ r. weigh p r ≡ w r.id) (map g rows)
  map-weighed w g [] k h = tt
  map-weighed w g (r ∷ rows) k (hr, h) =
      ((k r).1 ∙ (hr ∙ ap w (sym (k r).0)), map-weighed w g rows k h)

  map-total :
      (g : Fileset → Fileset) (rows : List Fileset)
      → ((r : Fileset) → ((g r).id ≡ r.id) × (weigh p (g r) ≡ weigh p r))
      → total p (map g rows) ≡ total p rows
  map-total g [] k = refl
  map-total g (r ∷ rows) k =
      omega (arith, map-total g rows k, (k r).1, total-∷ p r rows, total-∷ p (g r) (map g rows))

  -- A change of all rows that keeps each row's id and weight.
  pub Profile-map :
      (w : ℕ → ℕ) (n : ℕ) (g : Fileset → Fileset) (rows : List Fileset)
      → ((r : Fileset) → ((g r).id ≡ r.id) × (weigh p (g r) ≡ weigh p r))
      → Profile w n rows
      → Profile w n (map g rows)
  Profile-map w n g rows k (h, t) = (map-weighed w g rows k h, map-total g rows k ∙ t)
