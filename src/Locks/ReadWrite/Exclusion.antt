-- ===== src/Locks/ReadWrite/Exclusion.antt =====
-- A writer is alone, the count tells who has a guard, and no assertion fails.
use wasabi_os.Prelude.{
  ℕ, ◌+◌, ◌≤◌, ◌<◌, ◌≡◌, refl, ◌∙◌, ◌≢◌, inl, inr, Bool, true, false, ◌&&◌, ◌↔◌, pos, negsuc,
  i64_max, arith,
}
use wasabi_os.Locks.Family.{weigh, weigh-le, weigh-ge, weigh-ge_two}
use wasabi_os.Locks.ReadWrite.{
  ReadWriteCell, Wrapping, plain, unwrap_lock, Access, reads, writes, Pc, idle, loading, trying,
  reader, locking, writer, panicked, advance, System, turn, Reach, start, later, open_to_read,
  is_unlocked,
}
use wasabi_os.Locks.ReadWrite.Counting.{is_reader, is_writer, Counted, Reach-Counted}

-- The guards that a context has.
abbrev pub guards : Pc → ℕ
guards reader = 1
guards writer = 1
guards _ = 0

module _ {w : Wrapping} {n : ℕ} {in_interrupt : ℕ → Bool} {c : ReadWriteCell} {s : System}
    (free : c.access_count ≡ pos 0) (r : Reach w in_interrupt n c s) where
  -- In every state that contexts can reach from an unlocked cell, also in an `UnwrapLock`, a
  -- context with a guard is the writer itself if there is a writer.
  pub writer_excludes : (i j : ℕ) → i < n → j < n → s.pc i ≡ writer → guards (s.pc j) ≡ 1 → i ≡ j
  writer_excludes i j hi hj ei gj = elim (Reach-Counted free r) [
    | inl h ↦ absurd (ground (arith, h.no_writer, weigh-ge is_writer s.pc n i hi))
    | inr h ↦ ground (
      arith,
      h.one_writer,
      h.no_reader,
      weigh-ge is_reader s.pc n j hj,
      weigh-ge_two is_writer s.pc n i j hi hj,
    )
  ]

-- Few contexts, which lock a preemtable cell only outside interrupts.
pub record Setting (n : ℕ) (in_interrupt : ℕ → Bool) (c : ReadWriteCell) : Type 0 where
  pub few : n < i64_max
  pub free : c.access_count ≡ pos 0
  pub usable : (i : ℕ) → c.preemtable && in_interrupt i ≡ false

-- No context has panicked, and the counts that contexts have loaded are small.
pub record Calm (n : ℕ) (c : ReadWriteCell) (s : System) : Type 0 where
  pub calm : (i : ℕ) → s.pc i ≢ panicked
  pub seen : (i k : ℕ) → s.pc i ≡ trying (pos k) → k ≤ n
  pub kept : s.cell.preemtable ≡ c.preemtable

advance-preemtable :
    (w : Wrapping) (b : Bool) (a : Access) (c : ReadWriteCell) (p : Pc)
    → (advance w b a c p).0.preemtable ≡ c.preemtable
advance-preemtable plain b a c reader = refl
advance-preemtable unwrap_lock b a c reader = refl
advance-preemtable w b reads c idle = refl
advance-preemtable w b writes c idle = refl
advance-preemtable w b a c p = ground arith

is_reader-le : (p : Pc) → is_reader p ≤ 1
is_reader-le p = ground arith

module _ {n : ℕ} {in_interrupt : ℕ → Bool} {c : ReadWriteCell}
    (setting : Setting n in_interrupt c) where
  open setting use {few, free, usable}

  turn-quiet :
      {s : System}
      → Counted plain n s
      → Calm n c s
      → (i : ℕ) (a : Access) → i < n
      → (p : Pc) → s.pc i ≡ p
      → (advance plain (in_interrupt i) a s.cell p).1 ≢ panicked
  turn-quiet counted old i reads lt idle e h = cc
  turn-quiet counted old i writes lt idle e h = ground (arith, usable i, old.kept)
  turn-quiet counted old i a lt loading e h = cc
  turn-quiet counted old i a lt (trying (pos k)) e h = ground (arith, old.seen i k e, few)
  turn-quiet counted old i a lt (trying (negsuc k)) e h = cc
  turn-quiet {s} (inl c') old i a lt reader e h =
      ground (arith, c'.access_count, c'.exact refl, weigh-ge is_reader s.pc n i lt)
  turn-quiet {s} (inr c') old i a lt reader e h =
      ground (arith, c'.no_reader, weigh-ge is_reader s.pc n i lt)
  turn-quiet counted old i a lt locking e h = ground arith
  turn-quiet {s} (inl c') old i a lt writer e h =
      ground (arith, c'.no_writer, weigh-ge is_writer s.pc n i lt)
  turn-quiet (inr c') old i a lt writer e h = ground (arith, c'.access_count)
  turn-quiet counted old i a lt panicked e h = old.calm i e

  small_count : {s : System} → Counted plain n s → (k : ℕ) → s.cell.access_count ≡ pos k → k ≤ n
  small_count {s} (inl h) k e =
      ground (arith, h.access_count, h.exact refl, weigh-le is_reader s.pc is_reader-le n)
  small_count (inr h) k e = ground (arith, h.access_count)

  turn-seen :
      {s : System}
      → Counted plain n s
      → Calm n c s
      → (i : ℕ) (a : Access) → (p : Pc) → s.pc i ≡ p
      → (k : ℕ) → (advance plain (in_interrupt i) a s.cell p).1 ≡ trying (pos k)
      → k ≤ n
  turn-seen counted old i reads idle e k h = cc
  turn-seen counted old i writes idle e k h = ground arith
  turn-seen counted old i a loading e k h = small_count counted k (ground arith)
  turn-seen counted old i a (trying (pos m)) e k h = small_count counted k (ground arith)
  turn-seen counted old i a (trying (negsuc m)) e k h = small_count counted k (ground arith)
  turn-seen counted old i a p e k h = ground arith

  turn-Calm :
      {s : System}
      → Counted plain n s
      → Calm n c s
      → (i : ℕ) (a : Access) → i < n
      → Calm n c (turn plain in_interrupt s i a)
  turn-Calm {s} counted old i a lt = record {
    calm = λ j. ground (arith, old.calm j, turn-quiet {s = s} counted old i a lt (s.pc i) refl);
    seen = λ j k. ground (arith, old.seen j k, turn-seen {s = s} counted old i a (s.pc i) refl k);
    kept = advance-preemtable plain (in_interrupt i) a s.cell (s.pc i) ∙ old.kept;
  }

  Reach-Calm : {s : System} → Reach plain in_interrupt n c s → Calm n c s
  Reach-Calm start = record { calm = λ i h. cc; seen = λ i k h. cc; kept = refl }
  Reach-Calm (later {s} r i a lt) = turn-Calm {s = s} (Reach-Counted free r) (Reach-Calm r) i a lt

  -- In every state that fewer than `2 ^ 63 - 1` contexts can reach from an unlocked cell of its
  -- own, which lock a preemtable one only outside interrupts, the cell is open to read exactly if
  -- no context writes, it is unlocked exactly if no context has a guard, and no assertion has
  -- failed.
  pub observed :
      {s : System}
      → Reach plain in_interrupt n c s
      → (open_to_read s.cell ≡ true ↔ weigh is_writer s.pc n ≡ 0)
        × (is_unlocked s.cell ≡ true ↔ weigh is_reader s.pc n + weigh is_writer s.pc n ≡ 0)
        × ((i : ℕ) → s.pc i ≢ panicked)
  observed {s} r = elim (Reach-Counted free r) [
    | inl h ↦ (
      (λ q. h.no_writer, λ q. ground (arith, h.access_count)),
      (
        λ q. ground (arith, h.access_count, h.exact refl, h.no_writer),
        λ q. ground (arith, h.access_count, h.exact refl),
      ),
      (Reach-Calm r).calm,
    )
    | inr h ↦ (
      (λ q. ground (arith, h.access_count), λ q. ground (arith, h.one_writer)),
      (λ q. ground (arith, h.access_count), λ q. ground (arith, h.one_writer)),
      (Reach-Calm r).calm,
    )
  ]
