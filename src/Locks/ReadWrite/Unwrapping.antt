-- ===== src/Locks/ReadWrite/Unwrapping.antt =====
-- An `UnwrapLock` over a `ReadWriteCell` keeps the count of each reader that it has had.
use wasabi_os.Prelude.{
  ℕ, zero, suc, ◌≤◌, ◌<◌, ◌≡◌, refl, ◌≢◌, inl, inr, Bool, true, ◌&&◌, Bool-cases, ℤ, pos, negsuc,
  ◌=ℤ=◌, i64_max, ltb, List, [], ◌∷◌, arith,
}
use wasabi_os.Locks.Family.{weigh-ge}
use wasabi_os.Locks.ReadWrite.{
  ReadWriteCell, unwrap_lock, Access, reads, writes, Pc, idle, loading, trying, reader, locking,
  writer, panicked, advance, System, turn, run, Reach, read,
}
use wasabi_os.Locks.ReadWrite.Counting.{is_reader, is_writer, Counted, turn-Counted, Reach-Counted}

-- Every turn is one of the first `n` contexts'.
abbrev pub below : ℕ → List (ℕ × Access) → Bool
below n [] = true
below n ((i, a) ∷ is) = ltb i n && below n is

-- The count is above 0.
abbrev pub IsHeld : ReadWriteCell → Type 0
IsHeld c = (k : ℕ) × (c.access_count ≡ pos (suc k))

read-IsHeld : (c : ReadWriteCell) (count : ℤ) → IsHeld c → IsHeld (read c count).0
read-IsHeld c (negsuc m) held = held
read-IsHeld c (pos m) (k, e) = elim (Bool-cases (pos m =ℤ= pos i64_max)) [
  | inl full ↦ rw (full) (k, e)
  | inr room ↦ rw (room) (elim (Bool-cases (c.access_count =ℤ= pos m)) [
    | inl same ↦ rw (same) (m, ground arith)
    | inr changed ↦ rw (changed) (k, e)
  ])
]

-- No step in an `UnwrapLock` but a writer's takes the count back to 0.
advance-IsHeld :
    (b : Bool) (a : Access) (c : ReadWriteCell) (p : Pc)
    → p ≢ writer
    → IsHeld c
    → IsHeld (advance unwrap_lock b a c p).0
advance-IsHeld b reads c idle d held = held
advance-IsHeld b writes c idle d held = held
advance-IsHeld b a c loading d held = held
advance-IsHeld b a c (trying count) d held = read-IsHeld c count held
advance-IsHeld b a c reader d held = held
advance-IsHeld b a c locking d (k, e) = (k, ground arith)
advance-IsHeld b a c writer d held = absurd (d refl)
advance-IsHeld b a c panicked d held = held

module _ {n : ℕ} (in_interrupt : ℕ → Bool) where
  no_writer :
      {s : System} → Counted unwrap_lock n s → IsHeld s.cell → (j : ℕ) → j < n → s.pc j ≢ writer
  no_writer {s} (inl h) held j lt e = ground (arith, h.no_writer, weigh-ge is_writer s.pc n j lt)
  no_writer (inr h) (k, e) j lt q = ground (arith, h.access_count)

  run-IsHeld :
      (s : System)
      → Counted unwrap_lock n s
      → IsHeld s.cell
      → (is : List (ℕ × Access)) → below n is ≡ true
      → Counted unwrap_lock n (run unwrap_lock in_interrupt s is)
        × IsHeld (run unwrap_lock in_interrupt s is).cell
  run-IsHeld s counted held [] h = (counted, held)
  run-IsHeld s counted held ((i, a) ∷ is) h =
      run-IsHeld (turn unwrap_lock in_interrupt s i a)
        (turn-Counted unwrap_lock n in_interrupt s counted i a lt)
        (advance-IsHeld (in_interrupt i) a s.cell (s.pc i) (no_writer {s = s} counted held i lt)
          held)
        is (ground arith)
    where
      lt : i < n
      lt = ground arith

  reader-IsHeld :
      {s : System} → Counted unwrap_lock n s → (i : ℕ) → i < n → s.pc i ≡ reader → IsHeld s.cell
  reader-IsHeld {s} (inr h) i lt e =
      absurd (ground (arith, h.no_reader, weigh-ge is_reader s.pc n i lt))
  reader-IsHeld {s} (inl h) i lt e =
      above h.count h.access_count (ground (arith, h.counted, weigh-ge is_reader s.pc n i lt))
    where
      above : (k : ℕ) → s.cell.access_count ≡ pos k → 1 ≤ k → IsHeld s.cell
      above zero a le = absurd (omega arith)
      above (suc k) a le = (k, a)

  -- An `UnwrapLock` over a `ReadWriteCell` is lost to writers once it was read: in a state that
  -- contexts can reach from an unlocked cell, with a reader, no later turns of these contexts bring
  -- a writer in, also when every guard is dropped.
  pub unwrap_lock_leaks :
      {c : ReadWriteCell} {s : System}
      → c.access_count ≡ pos 0
      → Reach unwrap_lock in_interrupt n c s
      → (i : ℕ) → i < n
      → s.pc i ≡ reader
      → (is : List (ℕ × Access)) → below n is ≡ true
      → (j : ℕ) → j < n
      → (run unwrap_lock in_interrupt s is).pc j ≢ writer
  unwrap_lock_leaks {s = s} free r i lt e is h j lj =
      let counted = Reach-Counted free r in
      let (after, held) = run-IsHeld s counted (reader-IsHeld {s = s} counted i lt e) is h in
      no_writer {s = run unwrap_lock in_interrupt s is} after held j lj
