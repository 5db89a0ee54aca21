-- ===== src/Domain/Filesets.antt =====
-- domain/filesets.py: fileset kinds, states and the transitions between them.
pub mod Lifecycle
use stashd.Prelude.{ℕ, Bool, true, false, not, List, [], ◌∷◌, any, ◌==◌, if◌then◌else◌}
use stashd.Domain.Errors.{ErrorCode, Result, ok, raise}

pub data FilesetKind : Type 0 where
  cached output : FilesetKind

pub data FilesetState : Type 0 where
  creating ready populating flushing releasing released failed : FilesetState

-- The place of a state in the enum, for the identity test `is`.
abbrev pub index : FilesetState → ℕ
index creating = 0
index ready = 1
index populating = 2
index flushing = 3
index releasing = 4
index released = 5
index failed = 6

abbrev pub is_state : FilesetState → FilesetState → Bool
is_state s t = index s == index t

abbrev pub is_output : FilesetKind → Bool
is_output output = true
is_output cached = false

pub transitions : FilesetState → List FilesetState
transitions creating = ready ∷ failed ∷ []
transitions ready = populating ∷ flushing ∷ releasing ∷ failed ∷ []
transitions populating = ready ∷ failed ∷ []
transitions flushing = ready ∷ failed ∷ []
transitions releasing = released ∷ failed ∷ []
transitions failed = populating ∷ flushing ∷ releasing ∷ []
transitions released = []

unfoldable pub next_fileset_state : FilesetState → FilesetState → Result FilesetState
unfolding transitions
next_fileset_state current target =
    if any (is_state target) (transitions current) then ok target else raise ErrorCode.conflict []

unfoldable pub holds_allocation : FilesetState → Bool
holds_allocation state = not (is_state state released)
