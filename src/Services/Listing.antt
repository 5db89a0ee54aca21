-- ===== src/Services/Listing.antt =====
-- services/transfers.py: reading the queue and the transfer history. PostgreSQL's LIKE is modelled
-- with its wild cards and its escape.
pub mod Order
pub mod Pages
use stashd.Prelude.{
  ℕ, suc, ◌-◌, Text, same, digits_of, value_from, Bool, true, false, ◌&&◌, ◌||◌, List, [], ◌∷◌,
  ◌++◌, length, select, take, get_elem?, is_empty, ltb, ◌==◌, min, Option, none, some,
  if◌then◌else◌,
}
use stashd.Domain.Transfers.{TransferKind, TransferState, is_state}
use stashd.Models.{Transfer, Db}

abbrev max_page : ℕ
max_page = 500

-- A LIKE pattern: one character, any one, or any number of them.
pub data Token : Type 0 where
  literal : ℕ → Token
  any_one : Token
  any_many : Token

abbrev token : ℕ → Token
token c = if c == b'%' then any_many else if c == b'_' then any_one else literal c

-- A backslash makes a literal of what follows it.
unfoldable pub tokens : Text → List Token
tokens [] = []
tokens (c ∷ []) = token c ∷ []
tokens (c ∷ d ∷ p) = elim (c == 92) [
  | true ↦ literal d ∷ tokens p
  | false ↦ token c ∷ tokens (d ∷ p)
]

abbrev at_some_suffix : (Text → Bool) → Text → Bool
at_some_suffix q [] = q []
at_some_suffix q (c ∷ t) = q (c ∷ t) || at_some_suffix q t

unfoldable pub like_tokens : List Token → Text → Bool
like_tokens [] t = is_empty t
like_tokens (literal c ∷ p) [] = false
like_tokens (literal c ∷ p) (d ∷ t) = c == d && like_tokens p t
like_tokens (any_one ∷ p) [] = false
like_tokens (any_one ∷ p) (d ∷ t) = like_tokens p t
like_tokens (any_many ∷ p) t = at_some_suffix (like_tokens p) t

-- `column.startswith(prefix)` and `column.endswith(suffix)`.
unfoldable pub starts_with : Text → Text → Bool
unfolding like_tokens tokens
starts_with prefix t = like_tokens (tokens (prefix ++ (b'%' ∷ []))) t

unfoldable pub ends_with : Text → Text → Bool
unfolding like_tokens tokens
ends_with suffix t = like_tokens (tokens (b'%' ∷ suffix)) t

-- The arguments of list_transfers that choose rows.
pub record Query : Type 0 where
  pub user : Option Text
  pub state : Option TransferState
  pub kind : Option TransferKind
  pub storage : Option Text
  pub route : Option Text
  pub fileset_id : Option ℕ

abbrev given {ℓ} : {A : Type ℓ} → Option A → (A → Bool) → Bool
given none test = true
given (some a) test = test a

abbrev is_kind : TransferKind → TransferKind → Bool
is_kind TransferKind.warm TransferKind.warm = true
is_kind TransferKind.flush TransferKind.flush = true
is_kind TransferKind.release TransferKind.release = true
is_kind _ _ = false

unfoldable pub on_storage : Text → Text → Bool
unfolding starts_with ends_with
on_storage storage_id route =
    starts_with (storage_id ++ (b'-' ∷ b'>' ∷ [])) route
    || ends_with (b'-' ∷ b'>' ∷ storage_id) route

unfoldable pub matches : Query → Transfer → Bool
unfolding same on_storage
matches f t =
    given f.user (same t.user)
    && given f.state (is_state t.state)
    && given f.kind (is_kind t.kind)
    && given f.route (same t.route)
    && given f.fileset_id (λ id. t.fileset_id == id)
    && given f.storage (λ id. on_storage id t.route)

-- `order_by(Transfer.id.desc())`.
unfoldable pub insert_newest : Transfer → List Transfer → List Transfer
insert_newest t [] = t ∷ []
insert_newest t (r ∷ rs) = if ltb r.id t.id then t ∷ r ∷ rs else r ∷ insert_newest t rs

unfoldable pub newest_first : List Transfer → List Transfer
unfolding insert_newest
newest_first [] = []
newest_first (t ∷ ts) = insert_newest t (newest_first ts)

-- `int(cursor)` of a decimal numeral.
abbrev pub below : Option Text → Transfer → Bool
below none t = true
below (some cursor) t = ltb t.id (value_from 0 cursor)

-- The id of the last row of the page, as a text.
abbrev pub cursor_of : Option Transfer → Option Text
cursor_of none = none
cursor_of (some t) = some (digits_of t.id)

-- `limit` is at least 1 (the route says gt=0), so that `page - 1` is an index.
abbrev pub page_of : ℕ → List Transfer → List Transfer × Option Text
page_of page rows =
    if ltb page (length rows)
    then (take page rows, cursor_of (get_elem? rows (page - 1)))
    else (rows, none)

unfoldable pub list_transfers : Query → ℕ → Option Text → Db → List Transfer × Option Text
unfolding matches newest_first value_from digits_of
list_transfers f limit cursor db =
    let page = min limit max_page in
    page_of page
      (take (suc page) (newest_first (select (λ t. matches f t && below cursor t) db.transfers)))
