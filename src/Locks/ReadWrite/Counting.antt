-- ===== src/Locks/ReadWrite/Counting.antt =====
-- The access count is the number of readers, or -1 with one writer.
use wasabi_os.Prelude.{
  ℕ, zero, suc, ◌+◌, ◌≤◌, ◌<◌, ◌≡◌, refl, sym, subst, ◌⊎◌, inl, inr, Bool, false, Bool-cases, ℤ,
  pos, negsuc, wrapping_inc, is_negative, ◌=ℤ=◌, =ℤ=→≡, i64_max, arith,
}
use wasabi_os.Locks.Family.{with_member, weigh, weigh-with_member, weigh-ge, weigh-nothing}
use wasabi_os.Locks.ReadWrite.{
  ReadWriteCell, Wrapping, plain, unwrap_lock, Access, reads, writes, Pc, idle, loading, trying,
  reader, locking, writer, panicked, advance, System, init, turn, Reach, start, later, read, lock,
  release_read, force_release_read, unlock_no_guard,
}

abbrev pub is_reader : Pc → ℕ
is_reader reader = 1
is_reader _ = 0

abbrev pub is_writer : Pc → ℕ
is_writer writer = 1
is_writer _ = 0

-- No writer, and a count that has each reader; in a cell of its own it has nothing more.
pub record HasReaders (w : Wrapping) (n : ℕ) (s : System) : Type 0 where
  pub count : ℕ
  pub access_count : s.cell.access_count ≡ pos count
  pub no_writer : weigh is_writer s.pc n ≡ 0
  pub counted : weigh is_reader s.pc n ≤ count
  pub exact : w ≡ plain → weigh is_reader s.pc n ≡ count

pub record HasWriter (n : ℕ) (s : System) : Type 0 where
  pub access_count : s.cell.access_count ≡ negsuc 0
  pub one_writer : weigh is_writer s.pc n ≡ 1
  pub no_reader : weigh is_reader s.pc n ≡ 0

abbrev pub Counted : Wrapping → ℕ → System → Type 0
Counted w n s = HasReaders w n s ⊎ HasWriter n s

pub init-Counted :
    (w : Wrapping) (n : ℕ) (c : ReadWriteCell) → c.access_count ≡ pos 0 → Counted w n (init c)
init-Counted w n c e = inl (record {
  count = 0;
  access_count = e;
  no_writer = weigh-nothing is_writer idle refl n;
  counted = omega (arith, weigh-nothing is_reader idle refl n);
  exact = λ _. weigh-nothing is_reader idle refl n;
})

Wrapping-cases : (w : Wrapping) → (w ≡ plain) ⊎ (w ≡ unwrap_lock)
Wrapping-cases plain = inl refl
Wrapping-cases unwrap_lock = inr refl

module _ (w : Wrapping) (n : ℕ) (c : ReadWriteCell) (pc : ℕ → Pc) (i : ℕ) (lt : i < n) where
  abbrev Before : Type 0
  Before = Counted w n (record { cell = c; pc = pc })

  abbrev After : ReadWriteCell × Pc → Type 0
  After (c', p) = Counted w n (record { cell = c'; pc = with_member pc i p })

  -- A step that leaves the count and the guards alone.
  same :
      (p : Pc)
      → is_reader p ≡ is_reader (pc i)
      → is_writer p ≡ is_writer (pc i)
      → Before
      → After (c, p)
  same p r k (inl h) = inl (record {
    count = h.count;
    access_count = h.access_count;
    no_writer = omega (arith, h.no_writer, weigh-with_member is_writer pc i p n lt);
    counted = omega (arith, h.counted, weigh-with_member is_reader pc i p n lt);
    exact = λ e. omega (arith, h.exact e, weigh-with_member is_reader pc i p n lt);
  })
  same p r k (inr h) = inr (record {
    access_count = h.access_count;
    one_writer = omega (arith, h.one_writer, weigh-with_member is_writer pc i p n lt);
    no_reader = omega (arith, h.no_reader, weigh-with_member is_reader pc i p n lt);
  })

  entered :
      (count : ℤ)
      → (count =ℤ= pos i64_max) ≡ false
      → c.access_count ≡ count
      → is_negative count ≡ false
      → pc i ≡ trying count
      → Before
      → After (record c { access_count = wrapping_inc count }, reader)
  entered count room found neg e (inr h) = absurd (ground (arith, h.access_count))
  entered (negsuc k) room found neg e (inl h) = cc
  entered (pos k) room found neg e (inl h) = inl (record {
    count = k + 1;
    access_count = ground arith;
    no_writer = ground (arith, h.no_writer, weigh-with_member is_writer pc i reader n lt);
    counted =
        ground (arith, h.counted, h.access_count, weigh-with_member is_reader pc i reader n lt);
    exact = λ x.
        ground (arith, h.exact x, h.access_count, weigh-with_member is_reader pc i reader n lt);
  })

  read-After : (count : ℤ) → pc i ≡ trying count → Before → After (read c count)
  read-After count e h = elim (Bool-cases (is_negative count)) [
    | inl neg ↦ rw (neg) (same (trying c.access_count) (ground arith) (ground arith) h)
    | inr neg ↦ rw (neg) (elim (Bool-cases (count =ℤ= pos i64_max)) [
      | inl full ↦ rw (full) (same panicked (ground arith) (ground arith) h)
      | inr full ↦ rw (full) (elim (Bool-cases (c.access_count =ℤ= count)) [
        | inl found ↦ rw (found) (entered count full (=ℤ=→≡ c.access_count count found) neg e h)
        | inr changed ↦ rw (changed) (same (trying c.access_count) (ground arith) (ground arith) h)
      ])
    ])
  ]

  taken :
      c.access_count ≡ pos 0
      → pc i ≡ locking
      → Before
      → After (record c { access_count = negsuc 0 }, writer)
  taken free e (inr h) = absurd (ground (arith, h.access_count))
  taken free e (inl h) = inr (record {
    access_count = refl;
    one_writer = ground (arith, h.no_writer, weigh-with_member is_writer pc i writer n lt);
    no_reader =
        ground (arith, h.counted, h.access_count, weigh-with_member is_reader pc i writer n lt);
  })

  lock-After : pc i ≡ locking → Before → After (lock c)
  lock-After e h = elim (Bool-cases (c.access_count =ℤ= pos 0)) [
    | inl free ↦ rw (free) (taken (=ℤ=→≡ c.access_count (pos 0) free) e h)
    | inr busy ↦ rw (busy) (same locking (ground arith) (ground arith) h)
  ]

  -- A reader is counted, so the count is above 0.
  force_release_read-After : w ≡ plain → pc i ≡ reader → Before → After (force_release_read c)
  force_release_read-After own e (inr h) =
      absurd (ground (arith, h.no_reader, weigh-ge is_reader pc n i lt))
  force_release_read-After own e (inl h) = counts h.count h.access_count (h.exact own) h.no_writer
    where
      counts :
          (k : ℕ)
          → c.access_count ≡ pos k
          → weigh is_reader pc n ≡ k
          → weigh is_writer pc n ≡ 0
          → After (force_release_read c)
      counts zero a r z = absurd (ground (arith, weigh-ge is_reader pc n i lt))
      counts (suc k) a r z = rw (a) (
          inl (record {
            count = k;
            access_count = refl;
            no_writer = ground (arith, weigh-with_member is_writer pc i idle n lt);
            counted = ground (arith, weigh-with_member is_reader pc i idle n lt);
            exact = λ x. ground (arith, weigh-with_member is_reader pc i idle n lt);
          }))

  kept : w ≡ unwrap_lock → pc i ≡ reader → Before → After (c, idle)
  kept inner e (inr h) = absurd (ground (arith, h.no_reader, weigh-ge is_reader pc n i lt))
  kept inner e (inl h) = inl (record {
    count = h.count;
    access_count = h.access_count;
    no_writer = ground (arith, h.no_writer, weigh-with_member is_writer pc i idle n lt);
    counted = ground (arith, h.counted, weigh-with_member is_reader pc i idle n lt);
    exact = λ x. cc;
  })

  release_read-After : pc i ≡ reader → Before → After (release_read w c)
  release_read-After e h = elim (Wrapping-cases w) [
    | inl own ↦ subst (λ v. After (release_read v c)) (sym own) (force_release_read-After own e h)
    | inr inner ↦ subst (λ v. After (release_read v c)) (sym inner) (kept inner e h)
  ]

  unlock_no_guard-After : pc i ≡ writer → Before → After (unlock_no_guard c)
  unlock_no_guard-After e (inl h) =
      absurd (ground (arith, h.no_writer, weigh-ge is_writer pc n i lt))
  unlock_no_guard-After e (inr h) = rw (h.access_count) (
      inl (record {
        count = 0;
        access_count = refl;
        no_writer = ground (arith, h.one_writer, weigh-with_member is_writer pc i idle n lt);
        counted = ground (arith, h.no_reader, weigh-with_member is_reader pc i idle n lt);
        exact = λ x. ground (arith, h.no_reader, weigh-with_member is_reader pc i idle n lt);
      }))

  advance-After :
      (in_interrupt : Bool) (a : Access) (p : Pc)
      → pc i ≡ p
      → Before
      → After (advance w in_interrupt a c p)
  advance-After in_interrupt reads idle e h = same loading (ground arith) (ground arith) h
  advance-After in_interrupt writes idle e h = same _ (ground arith) (ground arith) h
  advance-After in_interrupt a loading e h =
      same (trying c.access_count) (ground arith) (ground arith) h
  advance-After in_interrupt a (trying count) e h = read-After count e h
  advance-After in_interrupt a reader e h = release_read-After e h
  advance-After in_interrupt a locking e h = lock-After e h
  advance-After in_interrupt a writer e h = unlock_no_guard-After e h
  advance-After in_interrupt a panicked e h = same panicked (ground arith) (ground arith) h

-- A step keeps the meaning of the access count, in a cell of its own and in an `UnwrapLock`: with
-- no writer it is at least the number of readers, in a cell of its own exactly that number; or it
-- is -1 with one writer and no reader.
pub turn-Counted :
    (w : Wrapping) (n : ℕ) (in_interrupt : ℕ → Bool) (s : System)
    → Counted w n s
    → (i : ℕ) (a : Access) → i < n
    → Counted w n (turn w in_interrupt s i a)
turn-Counted w n in_interrupt s h i a lt =
    advance-After w n s.cell s.pc i lt (in_interrupt i) a (s.pc i) refl h

pub Reach-Counted :
    {w : Wrapping} {n : ℕ} {in_interrupt : ℕ → Bool} {c : ReadWriteCell} {s : System}
    → c.access_count ≡ pos 0
    → Reach w in_interrupt n c s
    → Counted w n s
Reach-Counted {w} {n} {c = c} free start = init-Counted w n c free
Reach-Counted {w} {n} {in_interrupt} free (later {s} r i a lt) =
    turn-Counted w n in_interrupt s (Reach-Counted free r) i a lt
