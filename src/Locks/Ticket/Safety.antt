-- ===== src/Locks/Ticket/Safety.antt =====
-- What holds in every state that contexts on different cores can reach.
use wasabi_os.Prelude.{
  ℕ, ◌+◌, ◌-◌, ◌%◌, ◌^◌, ◌≤◌, ◌<◌, ◌≡◌, refl, ◌∙◌, ◌≢◌, Bool, true, false, ◌&&◌, some, List, [],
  arith,
}
use native.Mathlib.Decide.{ℕ_discrete}
use wasabi_os.Locks.Ticket.{
  UnsafeTicketLock, no_owner, Context, calling, checking, testing, releasing, Pc, locking,
  unlocking, panicked, advance,
}
use wasabi_os.Locks.Ticket.System.{System, turn, take_turn, Reach, start, later}
use wasabi_os.Locks.Ticket.Fifo.{Queue, empty, moved}
use wasabi_os.Locks.Ticket.Simulation.{ticket, critical, Sim, IsFree, init-Sim}
use wasabi_os.Locks.Ticket.Steps.{served-head, critical-eq, turn-Moves}

-- `n` contexts on cores of their own use the lock `l`; a preemtable one only outside interrupts.
pub record Setting (context : ℕ → Context) (n : ℕ) (l : UnsafeTicketLock) : Type 0 where
  pub few : n ≤ 2 ^ 64
  pub free : IsFree l
  pub cores : (i : ℕ) → (context i).core_id < 2 ^ 8
  pub apart : (i j : ℕ) → i < n → j < n → (context i).core_id ≡ (context j).core_id → i ≡ j
  pub usable : (i : ℕ) → l.preemtable && (context i).in_interrupt ≡ false

-- `s` stands for a queue that a fair lock can come to, and no context has panicked.
pub record Sound (context : ℕ → Context) (n : ℕ) (l : UnsafeTicketLock) (s : System) : Type 0 where
  pub queue : List ℕ
  pub fair : Queue n queue
  pub sim : Sim context n s.lock s.pc queue
  pub calm : (i : ℕ) → s.pc i ≢ panicked
  pub kept : s.lock.preemtable ≡ l.preemtable

advance-preemtable :
    (debug : Bool) (c : Context) (l : UnsafeTicketLock) (p : Pc)
    → (advance debug c l p).0.preemtable ≡ l.preemtable
advance-preemtable debug c l p = ground arith

module _ {context : ℕ → Context} {n : ℕ} {l : UnsafeTicketLock} (setting : Setting context n l)
    (debug : Bool) where
  open setting use {few, free, cores, apart, usable}

  -- With cores apart, the owner that `lock` finds is never its own core.
  turn-calm :
      {s : System}
      → Sound context n l s
      → (i : ℕ) → i < n
      → (p : Pc) → s.pc i ≡ p
      → (advance debug (context i) s.lock p).1 ≢ panicked
  turn-calm sound i lt (locking calling) e h = ground (arith, usable i, sound.kept, sound.sim.whole)
  turn-calm {s} sound i lt (locking (checking t)) e h = elim (ℕ_discrete s.lock.owner no_owner) [
    | yes free' ↦ ground arith
    | no taken ↦
        let (j, owns_j, same) = sound.sim.owned taken in
        ground (arith, sound.sim.outside j, apart i j)
  ]
  turn-calm sound i lt (unlocking testing) e h = ground (arith, sound.sim.owner i, cores i)
  turn-calm sound i lt panicked e h = sound.calm i e
  turn-calm sound i lt p e h = ground arith

  turn-Sound :
      {s : System}
      → Sound context n l s
      → (i : ℕ) → i < n
      → Sound context n l (turn debug context s i)
  turn-Sound {s} sound i lt =
      let (q, moves, sim) = turn-Moves {s = s} sound.sim debug i lt (omega (arith, cores i)) calm in
      record {
        queue = q;
        fair = moved i sound.fair moves;
        sim = sim;
        calm = λ j. ground (arith, sound.calm j, calm);
        kept = advance-preemtable debug (context i) s.lock (s.pc i) ∙ sound.kept;
      }
    where
      calm : (advance debug (context i) s.lock (s.pc i)).1 ≢ panicked
      calm = turn-calm sound i lt (s.pc i) refl

  pub Reach-Sound : {s : System} → Reach debug context n l s → Sound context n l s
  Reach-Sound start = record {
    queue = [];
    fair = empty;
    sim = init-Sim context n l few free;
    calm = λ i h. cc;
    kept = refl;
  }
  Reach-Sound (later r (take_turn i lt)) = turn-Sound (Reach-Sound r) i lt

-- In every state that contexts on different cores can reach, up to `2 ^ 64` of them, which use a
-- preemtable lock only outside interrupts, one context at most is between the end of its wait and
-- the service of the next ticket, and that context has not panicked.
pub mutual_exclusion :
    {context : ℕ → Context} {n : ℕ} {l : UnsafeTicketLock} {s : System} (debug : Bool)
    → Setting context n l
    → Reach debug context n l s
    → (i j : ℕ) → critical (s.pc i) ≡ true
    → critical (s.pc j) ≡ true
    → (i ≡ j) × (s.pc i ≢ panicked)
mutual_exclusion debug setting r i j ci cj =
    let sound = Reach-Sound setting debug r in (critical-eq sound.sim i j ci cj, sound.calm i)

-- Tickets that are served before `t`.
abbrev pub ahead : UnsafeTicketLock → ℕ → ℕ
ahead l t = (t + 2 ^ 64 - l.current_ticket) % 2 ^ 64

-- The next step serves the next ticket.
abbrev pub serves : Pc → ℕ
serves (unlocking releasing) = 1
serves _ = 0

waits-behind :
    {context : ℕ → Context} {n : ℕ} {s : System} {q : List ℕ}
    → Sim context n s.lock s.pc q
    → (i j t : ℕ) → s.pc i ≡ unlocking releasing
    → ticket s.lock (s.pc j) ≡ some t
    → critical (s.pc j) ≡ false
    → t ≢ s.lock.current_ticket
waits-behind {s} sim i j t e h c same =
    ground (arith, served-head sim i (ground arith), served-head sim j (ground arith))

-- In the same states a step leaves the number of tickets that are served before the ticket of a
-- waiting context as it is, but for the step that serves the next ticket, which takes one off.
pub no_overtaking :
    {context : ℕ → Context} {n : ℕ} {l : UnsafeTicketLock} {s : System} (debug : Bool)
    → Setting context n l
    → Reach debug context n l s
    → (i j t : ℕ) → i < n
    → ticket s.lock (s.pc j) ≡ some t
    → critical (s.pc j) ≡ false
    → ahead (turn debug context s i).lock t + serves (s.pc i) ≡ ahead s.lock t
no_overtaking {context} {n} {l} {s} debug setting r i j t lt h c = steps (s.pc i) refl
  where
    sound : Sound context n l s
    sound = Reach-Sound setting debug r

    small : t < 2 ^ 64
    small = let (d, at_d) = sound.sim.found j t h in ground (arith, sound.sim.placed d j at_d)

    steps :
        (p : Pc)
        → s.pc i ≡ p
        → ahead (advance debug (context i) s.lock p).0 t + serves p ≡ ahead s.lock t
    steps (unlocking releasing) e =
        omega (arith, small, sound.sim.fits, waits-behind {s = s} sound.sim i j t e h c)
    steps p e = ground arith
