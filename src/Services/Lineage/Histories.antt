-- ===== src/Services/Lineage/Histories.antt =====
-- Histories of requests: any number of reports, cancellations and releases, in any order.
use stashd.Prelude.{ℕ, Text, Bool, List, [], ◌∷◌, Option}
use stashd.Domain.Floats.{FloatOps}
use stashd.Domain.Identity.{Principal}
use stashd.Config.{ClusterConfig}
use stashd.Models.{Db}
use stashd.Session.{after}
use stashd.Services.Releases.{FilesetStore, release_fileset}
use stashd.Services.Cancelling.{cancel_transfer}
use stashd.Services.Events.{Event, apply_event}
use stashd.Services.Lineage.{NeverDeletes, Unconfirmed}

-- A request with what it is given: the time, and the stores that answer it.
pub data Request : Type 0 where
  reported : ℕ → Option FilesetStore → Event → Request
  cancelled : ℕ → Principal → Bool → ℕ → Request
  released : ℕ → FilesetStore → Principal → Bool → Text → Text → Text → Bool → Request

-- No store that answers the request confirms a deletion of the fileset.
abbrev pub Kept : ℕ → Request → Type 0
Kept id (reported now store event) = Unconfirmed id store
Kept id (cancelled now actor is_admin n) = Unit
Kept id (released now store actor is_admin user storage_id name discard) = NeverDeletes id store

module _ (f : FloatOps) (cluster : ClusterConfig) where
  -- The database after a request, whether it was done, refused or failed on the way.
  unfoldable pub serve : Request → Db → Db
  unfolding after apply_event cancel_transfer release_fileset
  serve (reported now store event) db = after (apply_event cluster now f store event) db
  serve (cancelled now actor is_admin id) db =
      after (cancel_transfer f cluster now actor is_admin id) db
  serve (released now store actor is_admin user storage_id name discard) db =
      after (release_fileset now store actor is_admin user storage_id name discard) db

  unfoldable pub serve_all : List Request → Db → Db
  unfolding serve
  serve_all [] db = db
  serve_all (r ∷ requests) db = serve_all requests (serve r db)
