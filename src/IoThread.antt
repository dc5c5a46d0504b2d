-- ===== src/IoThread.antt =====
-- `IoThread` of src/iothread.cpp: the work that keeps its context running, and the future of the thread
-- that runs it. How the run ends, with its count of handlers or by throwing, is a parameter.
mod Join
use cxx_util.Prelude.{ℕ, Bool, true, false, Option, none, some}

pub data Ending : Type 0 where
  ran : ℕ → Ending
  threw : Ending

pub record IoThread : Type 0 where
  pub work : Bool
  -- None when it is not valid.
  pub future : Option Ending

-- The constructor, for a run that will end so.
unfoldable pub start : Ending → IoThread
start e = record { work = true; future = some e }

-- `std::future::get` leaves the future not valid, also when it throws.
unfoldable pub join : IoThread → Ending × IoThread
join t = elim t.future [
  | some e ↦ (e, record { work = false; future = none })
  | none ↦ (ran 0, record { work = false; future = none })
]

-- Whether the destructor returns; where `join` throws in it, the program ends.
unfoldable pub destroy : IoThread → Bool
destroy t = elim (join t).0 [ ran n ↦ true | threw ↦ false ]
