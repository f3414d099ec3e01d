-- ===== src/Locks/Ticket/Simulation.antt =====
-- How a ticket lock stands for the queue of its contexts: place `d` has the `d`-th ticket from
-- the one that is served.
use wasabi_os.Prelude.{
  ℕ, ◌+◌, ◌%◌, ◌^◌, ◌≤◌, ◌<◌, ◌≡◌, refl, ◌≢◌, Bool, true, false, Option, none, some, List, [],
  length, get_elem?, arith,
}
use wasabi_os.Locks.Family.{weigh, weigh-nothing}
use wasabi_os.Locks.Ticket.{
  UnsafeTicketLock, no_owner, Context, waiting, checking, spinning, winning, testing, clearing, Pc,
  idle, locking, holding, unlocking,
}
use wasabi_os.Locks.Ticket.System.{init}

-- The ticket of a context; a context past its wait has the one that is served.
abbrev pub ticket : UnsafeTicketLock → Pc → Option ℕ
ticket l (locking (waiting t)) = some t
ticket l (locking (checking t)) = some t
ticket l (locking (spinning t)) = some t
ticket l (locking winning) = some l.current_ticket
ticket l (holding _) = some l.current_ticket
ticket l (unlocking _) = some l.current_ticket
ticket l _ = none

-- The context has a ticket.
abbrev pub draws : Pc → ℕ
draws (locking (waiting t)) = 1
draws (locking (checking t)) = 1
draws (locking (spinning t)) = 1
draws (locking winning) = 1
draws (holding _) = 1
draws (unlocking _) = 1
draws _ = 0

-- The context is past its wait and has not passed the lock on.
abbrev pub critical : Pc → Bool
critical (locking winning) = true
critical (holding _) = true
critical (unlocking _) = true
critical _ = false

-- The context's core is stored as the owner.
abbrev pub owns : Pc → Bool
owns (holding _) = true
owns (unlocking testing) = true
owns (unlocking clearing) = true
owns _ = false

-- The lock and the contexts stand for the queue `q`.
pub record Sim (context : ℕ → Context) (n : ℕ) (l : UnsafeTicketLock) (pc : ℕ → Pc) (q : List ℕ)
    : Type 0 where
  pub few : n ≤ 2 ^ 64
  pub fits : l.current_ticket < 2 ^ 64
  pub next : l.next_ticket ≡ (l.current_ticket + length q) % 2 ^ 64
  pub counted : length q ≡ weigh draws pc n
  pub whole : l.shattered ≡ false
  pub outside : (i : ℕ) → n ≤ i → pc i ≡ idle
  pub placed :
      (d i : ℕ) → get_elem? q d ≡ some i → ticket l (pc i) ≡ some ((l.current_ticket + d) % 2 ^ 64)
  pub found : (i t : ℕ) → ticket l (pc i) ≡ some t → (d : ℕ) × (get_elem? q d ≡ some i)
  pub owner : (i : ℕ) → owns (pc i) ≡ true → l.owner ≡ (context i).core_id
  pub owned : l.owner ≢ no_owner → (i : ℕ) × (owns (pc i) ≡ true) × (l.owner ≡ (context i).core_id)

-- A lock as `new` and `new_non_preemtable` make it, or one that has been used.
pub record IsFree (l : UnsafeTicketLock) : Type 0 where
  pub fits : l.current_ticket < 2 ^ 64
  pub next : l.next_ticket ≡ l.current_ticket
  pub whole : l.shattered ≡ false
  pub owner : l.owner ≡ no_owner

pub init-Sim :
    (context : ℕ → Context) (n : ℕ) (l : UnsafeTicketLock)
    → n ≤ 2 ^ 64
    → IsFree l
    → Sim context n l (init l).pc []
init-Sim context n l few free = record {
  few = few;
  fits = free.fits;
  next = omega (arith, free.next, free.fits);
  counted = omega (arith, weigh-nothing draws idle refl n);
  whole = free.whole;
  outside = λ i h. refl;
  placed = λ d i h. cc;
  found = λ i t h. cc;
  owner = λ i h. cc;
  owned = λ h. absurd (h free.owner);
}
