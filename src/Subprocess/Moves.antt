-- ===== src/Subprocess/Moves.antt =====
-- The move operations of `Subprocess` (tests/src/subprocess.cpp). An object is its `pimpl_`, `none`
-- where that is null.
use zip.Prelude.{◌≡◌, Bool, true, false, Option, none, some, List, [], ◌++◌, ℕ, arith}
use zip.Subprocess.{Impl, reset}

-- `delete pimpl_`: the descriptors that the destructor of `Impl` passes to `close`.
unfoldable destroy : Option Impl → List ℕ
unfolding reset
destroy none = []
destroy (some s) = (reset s).closed

record Moved : Type 0 where
  target : Option Impl
  source : Option Impl
  closed : List ℕ

move_construct : Option Impl → Moved
move_construct o = record { target = o; source = none; closed = [] }

-- The Boolean says whether both are the same object.
move_assign : Bool → Option Impl → Option Impl → Moved
unfolding destroy
move_assign true this o = record { target = this; source = this; closed = [] }
move_assign false this o = record { target = o; source = none; closed = destroy this }

-- When the objects are destroyed after a move, every descriptor that they held before has been
-- closed as often as without the move: those of the target first, then those of the source.
moves_lem :
    (this o : Option Impl)
    → let built = move_construct o in
      let assigned = move_assign false this o in
      (destroy built.target ++ destroy built.source ≡ destroy o ++ [])
      × (assigned.closed ++ (destroy assigned.target ++ destroy assigned.source)
          ≡ destroy this ++ (destroy o ++ []))
      × ((move_assign true this this).closed ≡ [])
unfolding move_construct move_assign destroy
moves_lem this o = ground arith
