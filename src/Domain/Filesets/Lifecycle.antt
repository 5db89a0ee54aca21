-- ===== src/Domain/Filesets/Lifecycle.antt =====
-- The fileset state machine of domain/filesets.py: what a transition does to the allocation.
use stashd.Prelude.{◌≡◌, true, arith}
use stashd.Domain.Errors.{ok}
use stashd.Domain.Filesets.{FilesetState, next_fileset_state, holds_allocation}

-- A step to a state with an allocation starts from one, and ends in it.
pub next-live :
    (s t u : FilesetState)
    → next_fileset_state s t ≡ ok u
    → holds_allocation t ≡ true
    → (holds_allocation s ≡ true) × (holds_allocation u ≡ true)
unfolding next_fileset_state holds_allocation
next-live s t u e h = ground arith
