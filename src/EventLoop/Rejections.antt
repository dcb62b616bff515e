-- ===== src/EventLoop/Rejections.antt =====
-- runtime/src/event_loop/mod.rs: `promise_rejection_tracker_callback`, over the queue of promises
-- that were rejected and have no handler.
pub mod Tracking
use spiderfire.Prelude.{
  ℕ, zero, suc, List, [], ◌∷◌, ◌++◌, Option, none, some, ◌==◌, if◌then◌else◌, set, get_elem?,
}
use spiderfire.EventLoop.World.{World}

pub data HandlingState : Type 0 where
  unhandled handled : HandlingState

unfoldable pub position : ℕ → List ℕ → Option ℕ
position p [] = none
position p (x ∷ xs) =
    if x == p then some 0 else elim (position p xs) [ none ↦ none | some i ↦ some (suc i) ]

abbrev pub last : ℕ → List ℕ → ℕ
last x [] = x
last x (y ∷ ys) = last y ys

abbrev pub init : List ℕ → List ℕ
init [] = []
init (x ∷ []) = []
init (x ∷ y ∷ ys) = x ∷ init (y ∷ ys)

-- `VecDeque::swap_remove_back`: the last element takes the place of the one removed; an index that
-- is out of range removes nothing.
abbrev pub swap_out : ℕ → List ℕ → List ℕ
swap_out i [] = []
swap_out i (x ∷ xs) = init (set (x ∷ xs) i (last x xs))

unfoldable pub swap_remove_back : ℕ → List ℕ → List ℕ
swap_remove_back i l = elim (get_elem? l i) [ none ↦ l | some p ↦ swap_out i l ]

abbrev pub untrack : Option ℕ → List ℕ → List ℕ
untrack none l = l
untrack (some i) l = swap_remove_back i l

unfoldable pub track : HandlingState → ℕ → List ℕ → List ℕ
unfolding position swap_remove_back
track unhandled p l = l ++ p ∷ []
track handled p l = untrack (position p l) l

unfoldable pub rejection_tracker : HandlingState → ℕ → World → World
unfolding track
rejection_tracker s p w = record w { unhandled_rejections = track s p w.unhandled_rejections }
