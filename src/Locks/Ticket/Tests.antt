-- ===== src/Locks/Ticket/Tests.antt =====
-- Two cores that take turns with a lock.
use wasabi_os.Prelude.{
  ℕ, zero, suc, ◌+◌, ◌≤◌, ◌≡◌, refl, ◌≢◌, ◌⊎◌, Bool, true, false, ltb, ◌&&◌, some, List, [], ◌∷◌,
  arith,
}
use wasabi_os.Locks.Ticket.{
  UnsafeTicketLock, new, Context, acquired, spinning, locking, holding, panicked,
}
use wasabi_os.Locks.Ticket.System.{System, init, turn, run, take_turn, Reach, start, later}
use wasabi_os.Locks.Ticket.Fifo.{Moves}
use wasabi_os.Locks.Ticket.Simulation.{ticket, critical, Sim, init-Sim}
use wasabi_os.Locks.Ticket.Steps.{turn-Moves}
use wasabi_os.Locks.Ticket.Safety.{Setting, mutual_exclusion, ahead, no_overtaking}
use wasabi_os.Locks.Ticket.Progress.{EntersIn, no_lost_turn}

abbrev cpu : ℕ → Context
cpu zero = record { core_id = 0; in_interrupt = false }
cpu (suc _) = record { core_id = 1; in_interrupt = false }

two_cores : Setting cpu 2 new
two_cores = record {
  few = omega arith;
  free = record { fits = omega arith; next = refl; whole = refl; owner = refl };
  cores = λ i. ground arith;
  apart = λ i j hi hj e. ground arith;
  usable = λ i. ground arith;
}

abbrev below : ℕ → List ℕ → Bool
below n [] = true
below n (i ∷ is) = ltb i n && below n is

run-Reach :
    {n : ℕ} {l : UnsafeTicketLock} {s : System}
    → Reach true cpu n l s
    → (is : List ℕ) → below n is ≡ true
    → Reach true cpu n l (run true cpu s is)
run-Reach r [] h = r
run-Reach {n} {l} {s} r (i ∷ is) h =
    run-Reach {s = turn true cpu s i} (later r (take_turn i (ground arith))) is (ground arith)

abbrev first : List ℕ
first = 0 ∷ 0 ∷ 0 ∷ 0 ∷ 0 ∷ 1 ∷ 1 ∷ 1 ∷ 1 ∷ 1 ∷ []

-- Core 0 has the lock, and core 1 waits with the next ticket.
abbrev contended : System
contended = run true cpu (init new) first

contended-Reach : Reach true cpu 2 new contended
contended-Reach = run-Reach start first refl

lock_of_contended : contended.lock ≡ record {
  current_ticket = 0;
  next_ticket = 2;
  shattered = false;
  owner = 0;
  preemtable = true;
}
lock_of_contended = refl

pc_of_contended : (contended.pc 0 ≡ holding acquired) × (contended.pc 1 ≡ locking (spinning 1))
pc_of_contended = (refl, refl)

-- Core 0 is about to serve ticket 1.
abbrev handing : System
handing = run true cpu contended (0 ∷ 0 ∷ 0 ∷ [])

handing-Reach : Reach true cpu 2 new handing
handing-Reach = run-Reach contended-Reach (0 ∷ 0 ∷ 0 ∷ []) refl

mutual_exclusion_example : ◌≡◌ {A = ℕ} 0 0 × (contended.pc 0 ≢ panicked)
mutual_exclusion_example = mutual_exclusion true two_cores contended-Reach 0 0 refl refl

no_overtaking_example : ahead (turn true cpu handing 0).lock 1 + 1 ≡ ahead handing.lock 1
no_overtaking_example = no_overtaking true two_cores handing-Reach 0 1 1 (omega arith) refl refl

no_lost_turn_example :
    (j : ℕ) × (ticket contended.lock (contended.pc j) ≡ some 0)
    × ((critical (contended.pc j) ≡ true) ⊎ ((k : ℕ) × (k ≤ 4) × EntersIn true cpu k contended j))
no_lost_turn_example = no_lost_turn true two_cores contended-Reach 1 1 refl

turn-Moves_example :
    (q : List ℕ) × Moves 0 [] q
    × Sim cpu 2 (turn true cpu (init new) 0).lock (turn true cpu (init new) 0).pc q
turn-Moves_example =
    turn-Moves {s = init new} (init-Sim cpu 2 new (omega arith) two_cores.free) true 0 (omega arith)
      (omega arith) (λ h. cc)
