-- ===== src/Locks/Ticket.antt =====
-- shared/sync/lockcell.rs: `UnsafeTicketLock`, and the `TicketLock` that delegates to it. Each
-- step is one atomic access; what the code asks of `InterruptState` is a parameter.
pub mod System
pub mod Fifo
pub mod Simulation
pub mod Steps
pub mod Safety
pub mod Progress
mod Tests
use wasabi_os.Prelude.{ℕ, Bool, true, false, not, ◌&&◌, ◌||◌, ◌==◌, if◌then◌else◌, wrapping_add}

pub record UnsafeTicketLock : Type 0 where
  pub current_ticket : ℕ
  pub next_ticket : ℕ
  pub shattered : Bool
  pub owner : ℕ
  pub preemtable : Bool

-- `!0`, as a `u16`
abbrev pub no_owner : ℕ
no_owner = 0xffff

abbrev pub new : UnsafeTicketLock
new = record {
  current_ticket = 0;
  next_ticket = 0;
  shattered = false;
  owner = no_owner;
  preemtable = true;
}

abbrev pub new_non_preemtable : UnsafeTicketLock
new_non_preemtable = record {
  current_ticket = 0;
  next_ticket = 0;
  shattered = false;
  owner = no_owner;
  preemtable = false;
}

-- What `InterruptState` tells a context: its core, and whether it is an interrupt handler.
pub record Context : Type 0 where
  pub core_id : ℕ
  pub in_interrupt : Bool

pub data LockReason : Type 0 where
  acquired : LockReason
  shattered_lock : LockReason

-- Inside `lock`: before its guards, before the ticket is drawn, and with the ticket `t` before the
-- outer test, before the look at the owner, before the inner test, and before the owner is stored.
pub data Locking : Type 0 where
  calling : Locking
  entering : Locking
  waiting : ℕ → Locking
  checking : ℕ → Locking
  spinning : ℕ → Locking
  winning : Locking

-- Inside `unlock`: before the debug check, before the owner is reset, and before the next ticket
-- is served.
pub data Unlocking : Type 0 where
  testing : Unlocking
  clearing : Unlocking
  releasing : Unlocking

-- A context outside the lock, inside `lock`, with a guard, inside `unlock`, or after a panic.
pub data Pc : Type 0 where
  idle : Pc
  locking : Locking → Pc
  holding : LockReason → Pc
  unlocking : Unlocking → Pc
  panicked : Pc

abbrev pub is_unlocked : UnsafeTicketLock → Bool
is_unlocked l = l.owner == no_owner

abbrev pub is_preemtable : UnsafeTicketLock → Bool
is_preemtable l = l.preemtable

abbrev pub shatter_permanent : UnsafeTicketLock → UnsafeTicketLock
shatter_permanent l = record l { shattered = true }

-- The next step of `lock`.
abbrev pub lock : Context → UnsafeTicketLock → Locking → UnsafeTicketLock × Pc
lock c l calling = (
  l,
  if l.preemtable && c.in_interrupt
      then panicked
      else (if l.shattered then holding shattered_lock else locking entering),
)
lock c l entering =
    (record l { next_ticket = wrapping_add l.next_ticket 1 }, locking (waiting l.next_ticket))
lock c l (waiting t) = (l, if l.current_ticket == t then locking winning else locking (checking t))
lock c l (checking t) = (
  l,
  if not (l.owner == no_owner) && (l.owner == c.core_id) then panicked else locking (spinning t),
)
lock c l (spinning t) =
    (l, if l.current_ticket == t then locking (waiting t) else locking (spinning t))
lock c l winning = (record l { owner = c.core_id }, holding acquired)

-- The next step of `unlock`, in a build with or without `debug_assertions`. Its check reads the owner
-- and then `shattered`, which no step changes, so that the two reads are one step.
abbrev pub unlock : Bool → UnsafeTicketLock → Unlocking → UnsafeTicketLock × Pc
unlock debug l testing =
    (l, if debug && (is_unlocked l && not l.shattered) then panicked else unlocking clearing)
unlock debug l clearing = (record l { owner = no_owner }, unlocking releasing)
unlock debug l releasing = (record l { current_ticket = wrapping_add l.current_ticket 1 }, idle)

-- A context outside the lock calls `lock`; one with a guard drops it, which calls `unlock`.
abbrev pub advance : Bool → Context → UnsafeTicketLock → Pc → UnsafeTicketLock × Pc
advance debug c l idle = (l, locking calling)
advance debug c l (locking p) = lock c l p
advance debug c l (holding reason) = (l, unlocking testing)
advance debug c l (unlocking p) = unlock debug l p
advance debug c l panicked = (l, panicked)
