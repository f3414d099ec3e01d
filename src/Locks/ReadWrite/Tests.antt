-- ===== src/Locks/ReadWrite/Tests.antt =====
-- Readers and a writer of one cell.
use wasabi_os.Prelude.{ℕ, ◌+◌, ◌≡◌, refl, ◌≢◌, ◌↔◌, Bool, true, false, List, [], ◌∷◌, arith}
use wasabi_os.Locks.Family.{weigh}
use wasabi_os.Locks.ReadWrite.{
  ReadWriteCell, new, Wrapping, plain, unwrap_lock, Access, reads, writes, locking, writer,
  panicked, System, init, turn, run, Reach, start, later, open_to_read, is_unlocked,
}
use wasabi_os.Locks.ReadWrite.Counting.{is_reader, is_writer, Counted, turn-Counted, init-Counted}
use wasabi_os.Locks.ReadWrite.Exclusion.{Setting, writer_excludes, observed}
use wasabi_os.Locks.ReadWrite.Unwrapping.{below, unwrap_lock_leaks}

abbrev outside_interrupts : ℕ → Bool
outside_interrupts _ = false

run-Reach :
    {w : Wrapping} {n : ℕ} {c : ReadWriteCell} {s : System}
    → Reach w outside_interrupts n c s
    → (is : List (ℕ × Access)) → below n is ≡ true
    → Reach w outside_interrupts n c (run w outside_interrupts s is)
run-Reach r [] h = r
run-Reach {w} {n} {c} {s} r ((i, a) ∷ is) h =
    run-Reach {s = turn w outside_interrupts s i a} (later r i a (ground arith)) is (ground arith)

abbrev write_once : List (ℕ × Access)
write_once = (0, writes) ∷ (0, writes) ∷ []

abbrev read_once : List (ℕ × Access)
read_once = (0, reads) ∷ (0, reads) ∷ (0, reads) ∷ []

-- Context 0 has a read guard and drops it; then context 1 asks for the guard of a writer.
abbrev drop_and_write : List (ℕ × Access)
drop_and_write = (0, reads) ∷ (1, writes) ∷ (1, writes) ∷ []

abbrev written : System
written = run plain outside_interrupts (init new) write_once

abbrev reading : Wrapping → System
reading w = run w outside_interrupts (init new) read_once

written-Reach : Reach plain outside_interrupts 2 new written
written-Reach = run-Reach start write_once refl

reading-Reach : (w : Wrapping) → Reach w outside_interrupts 2 new (reading w)
reading-Reach w = run-Reach start read_once refl

few_contexts : Setting 2 outside_interrupts new
few_contexts = record { few = omega arith; free = refl; usable = λ i. ground arith }

-- In a cell of its own the writer comes in; in an `UnwrapLock` it does not.
write_after_read : (run plain outside_interrupts (reading plain) drop_and_write).pc 1 ≡ writer
write_after_read = refl

write_after_read_unwrap_lock :
    (run unwrap_lock outside_interrupts (reading unwrap_lock) drop_and_write).pc 1 ≡ locking
write_after_read_unwrap_lock = refl

turn-Counted_example : Counted plain 2 (turn plain outside_interrupts (init new) 0 writes)
turn-Counted_example =
    turn-Counted plain 2 outside_interrupts (init new) (init-Counted plain 2 new refl) 0 writes
      (omega arith)

writer_excludes_example : ◌≡◌ {A = ℕ} 0 0
writer_excludes_example =
    writer_excludes refl written-Reach 0 0 (omega arith) (omega arith) refl refl

observed_example :
    (open_to_read written.cell ≡ true ↔ weigh is_writer written.pc 2 ≡ 0)
    × (is_unlocked written.cell ≡ true
        ↔ weigh is_reader written.pc 2 + weigh is_writer written.pc 2 ≡ 0)
    × ((i : ℕ) → written.pc i ≢ panicked)
observed_example = observed few_contexts written-Reach

unwrap_lock_leaks_example :
    (run unwrap_lock outside_interrupts (reading unwrap_lock) drop_and_write).pc 1 ≢ writer
unwrap_lock_leaks_example =
    unwrap_lock_leaks outside_interrupts refl (reading-Reach unwrap_lock) 0 (omega arith) refl
      drop_and_write refl 1 (omega arith)
