-- ===== src/Locks/ReadWrite.antt =====
-- shared/sync/lockcell.rs: `ReadWriteCell`, alone or inside an `UnwrapLock`. Each step is one
-- atomic access, with the tests on local values before it.
pub mod Counting
pub mod Exclusion
pub mod Unwrapping
mod Tests
use wasabi_os.Prelude.{
  ℕ, Bool, true, false, not, ◌&&◌, ◌==◌, if◌then◌else◌, ℤ, pos, negsuc, wrapping_inc, wrapping_dec,
  is_negative, is_positive, ◌=ℤ=◌, i64_max, List, [], ◌∷◌, ◌<◌,
}
use wasabi_os.Locks.Family.{with_member}

pub record ReadWriteCell : Type 0 where
  pub access_count : ℤ
  pub preemtable : Bool

abbrev pub new : ReadWriteCell
new = record { access_count = pos 0; preemtable = true }

abbrev pub new_non_preemtable : ReadWriteCell
new_non_preemtable = record { access_count = pos 0; preemtable = false }

-- A cell of its own, or the one inside an `UnwrapLock`.
pub data Wrapping : Type 0 where
  plain : Wrapping
  unwrap_lock : Wrapping

-- What a context without a guard asks for.
pub data Access : Type 0 where
  reads : Access
  writes : Access

-- A context without a guard; inside `read`, before the first load and with a value of the count;
-- with a read guard; inside `lock`; with the guard of a writer; after a panic.
pub data Pc : Type 0 where
  idle : Pc
  loading : Pc
  trying : ℤ → Pc
  reader : Pc
  locking : Pc
  writer : Pc
  panicked : Pc

abbrev pub open_to_read : ReadWriteCell → Bool
open_to_read c = not (is_negative c.access_count)

abbrev pub is_unlocked : ReadWriteCell → Bool
is_unlocked c = c.access_count =ℤ= pos 0

-- `cur_count + 1` panics on overflow, as in a build with overflow checks.
abbrev pub read : ReadWriteCell → ℤ → ReadWriteCell × Pc
read c count =
    if is_negative count
    then (c, trying c.access_count)
    else (if count =ℤ= pos i64_max
        then (c, panicked)
        else (if c.access_count =ℤ= count
            then (record c { access_count = wrapping_inc count }, reader)
            else (c, trying c.access_count)))

abbrev pub lock : ReadWriteCell → ReadWriteCell × Pc
lock c =
    if c.access_count =ℤ= pos 0
    then (record c { access_count = negsuc 0 }, writer)
    else (c, locking)

abbrev pub force_release_read : ReadWriteCell → ReadWriteCell × Pc
force_release_read c = (
  record c { access_count = wrapping_dec c.access_count },
  if is_positive c.access_count then idle else panicked,
)

-- `UnwrapLock` has the default body of `force_release_read`, which does nothing.
abbrev pub release_read : Wrapping → ReadWriteCell → ReadWriteCell × Pc
release_read plain c = force_release_read c
release_read unwrap_lock c = (c, idle)

abbrev pub unlock_no_guard : ReadWriteCell → ReadWriteCell × Pc
unlock_no_guard c =
    (record c { access_count = pos 0 }, if c.access_count =ℤ= negsuc 0 then idle else panicked)

-- A context without a guard asks for one; one with a guard drops it.
abbrev pub advance : Wrapping → Bool → Access → ReadWriteCell → Pc → ReadWriteCell × Pc
advance w in_interrupt reads c idle = (c, loading)
advance w in_interrupt writes c idle =
    (c, if c.preemtable && in_interrupt then panicked else locking)
advance w in_interrupt a c loading = (c, trying c.access_count)
advance w in_interrupt a c (trying count) = read c count
advance w in_interrupt a c reader = release_read w c
advance w in_interrupt a c locking = lock c
advance w in_interrupt a c writer = unlock_no_guard c
advance w in_interrupt a c panicked = (c, panicked)

pub record System : Type 0 where
  pub cell : ReadWriteCell
  pub pc : ℕ → Pc

abbrev pub init : ReadWriteCell → System
init c = record { cell = c; pc = λ _. idle }

module _ (w : Wrapping) (in_interrupt : ℕ → Bool) where
  -- Context `i` takes its next step.
  abbrev pub turn : System → ℕ → Access → System
  turn s i a =
      let (c, p) = advance w (in_interrupt i) a s.cell (s.pc i) in
      record { cell = c; pc = with_member s.pc i p }

  abbrev pub run : System → List (ℕ × Access) → System
  run s [] = s
  run s ((i, a) ∷ is) = run (turn s i a) is

  pub data Reach (n : ℕ) (c : ReadWriteCell) : System → Type 0 where
    start : Reach n c (init c)
    later : {s : System} → Reach n c s → (i : ℕ) (a : Access) → i < n → Reach n c (turn s i a)
