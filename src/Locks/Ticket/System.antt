-- ===== src/Locks/Ticket/System.antt =====
-- `n` contexts over one lock, interleaved in any order.
use wasabi_os.Prelude.{ℕ, ◌<◌, Bool, List, [], ◌∷◌}
use wasabi_os.Locks.Family.{with_member}
use wasabi_os.Locks.Ticket.{UnsafeTicketLock, Context, Pc, idle, advance}

pub record System : Type 0 where
  pub lock : UnsafeTicketLock
  pub pc : ℕ → Pc

abbrev pub init : UnsafeTicketLock → System
init l = record { lock = l; pc = λ _. idle }

module _ (debug : Bool) (context : ℕ → Context) where
  -- Context `i` takes its next step.
  abbrev pub turn : System → ℕ → System
  turn s i =
      let (l, p) = advance debug (context i) s.lock (s.pc i) in
      record { lock = l; pc = with_member s.pc i p }

  abbrev pub run : System → List ℕ → System
  run s [] = s
  run s (i ∷ is) = run (turn s i) is

  pub data Step (n : ℕ) (s : System) : System → Type 0 where
    take_turn : (i : ℕ) → i < n → Step n s (turn s i)

  pub data Reach (n : ℕ) (l : UnsafeTicketLock) : System → Type 0 where
    start : Reach n l (init l)
    later : {s t : System} → Reach n l s → Step n s t → Reach n l t
