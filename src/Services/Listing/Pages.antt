-- ===== src/Services/Listing/Pages.antt =====
-- Following the cursors of list_transfers (services/transfers.py).
use mathlib.Core.Path.{fun_ext}
use stashd.Prelude.{
  ℕ, zero, suc, ◌-◌, ◌≤◌, ◌<◌, Text, digits_of, value-digits_of, ◌≡◌, refl, ap, ◌∙◌, inl, inr, true,
  ◌&&◌, Bool-cases, List, [], ◌∷◌, ◌++◌, All, select_all, select-select, length, length-select-le,
  select, take, drop, take-append-drop, take-take-suc, get_elem?, ltb, min, Option, none, some,
  arith,
}
use stashd.Models.{Transfer, Db}
use stashd.Services.Retention.Conserved.{DistinctIds}
use stashd.Services.Listing.{
  Query, matches, newest_first, below, cursor_of, page_of, list_transfers, max_page,
}
use stashd.Services.Listing.Order.{
  Descending, All-get_elem?, newest_first-Descending, select-newest_first, select-below,
  select-holds, Descending-select, DistinctIds-select, short, last_row, length-newest_first,
}

abbrev joined : List Transfer → Option (List Transfer) → Option (List Transfer)
joined rows none = none
joined rows (some rest) = some (rows ++ rest)

abbrev follow :
    List Transfer × Option Text → (Text → Option (List Transfer)) → Option (List Transfer)
follow (rows, none) next = some rows
follow (rows, some cursor) next = joined rows (next cursor)

-- A client that asks for page after page until there is no cursor, so many times at most.
unfoldable pub collect : ℕ → Query → ℕ → Option Text → Db → Option (List Transfer)
unfolding list_transfers
collect zero f limit cursor db = none
collect (suc n) f limit cursor db =
    follow (list_transfers f limit cursor db) (λ c. collect n f limit (some c) db)

below_narrow :
    (cursor : Option Text) (t u : Transfer)
    → below cursor t ≡ true
    → ltb u.id t.id ≡ (below cursor u && ltb u.id t.id)
below_narrow none t u h = refl
below_narrow (some c) t u h = ground arith

module _ (f : Query) (db : Db) (distinct : DistinctIds db.transfers) where
  -- All the rows of the query, newest first.
  abbrev listed : List Transfer
  listed = newest_first (select (matches f) db.transfers)

  listed-Descending : Descending listed
  listed-Descending =
      newest_first-Descending _ (DistinctIds-select (matches f) db.transfers distinct)

  -- What a cursor leaves of them.
  abbrev left : Option Text → List Transfer
  left cursor = select (below cursor) listed

  list_transfers_lem :
      (limit : ℕ) (cursor : Option Text)
      → list_transfers f limit cursor db
        ≡ (let page = min limit max_page in page_of page (take (suc page) (left cursor)))
  unfolding list_transfers
  list_transfers_lem limit cursor =
      ap (λ rows. page_of (min limit max_page) (take (suc (min limit max_page)) rows))
        (ap newest_first (select-select (matches f) (below cursor) db.transfers)
          ∙ select-newest_first (below cursor) (select (matches f) db.transfers)
              (DistinctIds-select (matches f) db.transfers distinct))

  -- The cursor of a row leaves what is below it.
  left-cursor :
      (cursor : Option Text) (q : ℕ) (t : Transfer)
      → get_elem? (left cursor) q ≡ some t
      → left (cursor_of (some t)) ≡ drop (suc q) (left cursor)
  left-cursor cursor q t h =
      let within : below cursor t ≡ true =
        All-get_elem? (λ u. below cursor u ≡ true) q (left cursor) t
          (select-holds (below cursor) listed) h in
      ap (λ n. select (λ u. ltb u.id n) listed) (value-digits_of t.id)
      ∙ (ap (λ p. select p listed) (fun_ext (λ u. below_narrow cursor t u within))
          ∙ (select-select (below cursor) (λ u. ltb u.id t.id) listed
              ∙ select-below q (left cursor) t
                  (Descending-select (below cursor) listed listed-Descending) h))

  -- One page of what is left, and then the rest of it.
  follow-left :
      (q : ℕ) (cursor : Option Text) (next : Text → Option (List Transfer))
      → ((t : Transfer)
          → get_elem? (left cursor) q ≡ some t
          → length (drop (suc q) (left cursor)) < length (left cursor)
          → next (digits_of t.id) ≡ some (left (cursor_of (some t))))
      → follow (page_of (suc q) (take (suc (suc q)) (left cursor))) next ≡ some (left cursor)
  follow-left q cursor next k =
      elim (Bool-cases (ltb (suc q) (length (take (suc (suc q)) (left cursor))))) [
        | inr last ↦ rw last (ap some (short (suc q) (left cursor) last))
        | inl more ↦
            (let (t, seen, there, less) = last_row q (left cursor) more in
              let back : suc q - 1 ≡ q = omega arith in
              rw (more, back, seen, k t there less)
                (ap some (
                  ap (λ rows. rows ++ left (cursor_of (some t)))
                    (take-take-suc (suc q) (left cursor))
                  ∙ (ap (λ rest. take (suc q) (left cursor) ++ rest) (left-cursor cursor q t there)
                      ∙ take-append-drop (suc q) (left cursor)))))
      ]

  collect-left :
      (n limit : ℕ) (cursor : Option Text)
      → 1 ≤ limit
      → length (left cursor) < n
      → collect n f limit cursor db ≡ some (left cursor)
  unfolding collect
  collect-left zero limit cursor positive fuel = absurd (omega arith)
  collect-left (suc n) limit cursor positive fuel =
      let q = min limit max_page - 1 in
      let page : min limit max_page ≡ suc q = omega arith in
      let next = λ (c : Text). collect n f limit (some c) db in
      ap (λ r. follow r next) (list_transfers_lem limit cursor)
      ∙ (ap (λ m. follow (page_of m (take (suc m) (left cursor))) next) page
          ∙ follow-left q cursor next λ t there less.
            collect-left n limit (cursor_of (some t)) positive
              (rw (left-cursor cursor q t there) (omega arith)))

  left-start : left none ≡ listed
  left-start = select_all (below none) listed (every_row listed)
    where
      every_row : (ts : List Transfer) → All (λ t. below none t ≡ true) ts
      every_row [] = tt
      every_row (t ∷ ts) = (refl, every_row ts)

-- Where no two transfers have one id, a client that follows the cursors, with any limit but 0,
-- comes to a page with no cursor within one more request than there are transfers, and has
-- then been given the rows of the whole query, newest first: none twice and none left out.
pub collect-listed :
    (f : Query) (db : Db) (limit : ℕ)
    → DistinctIds db.transfers
    → 1 ≤ limit
    → collect (suc (length db.transfers)) f limit none db
      ≡ some (newest_first (select (matches f) db.transfers))
collect-listed f db limit distinct positive =
    collect-left f db distinct (suc (length db.transfers)) limit none positive (
      omega (
        arith,
        length-select-le (below none) (newest_first (select (matches f) db.transfers)),
        length-newest_first (select (matches f) db.transfers),
        length-select-le (matches f) db.transfers,
      ))
    ∙ ap some (left-start f db distinct)
