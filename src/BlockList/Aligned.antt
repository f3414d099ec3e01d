-- ===== src/BlockList/Aligned.antt =====
-- A range of bytes that begins with a block and ends in the last group.
use wasabi_os.Prelude.{
  ℕ, zero, suc, ◌+◌, ◌-◌, ◌*◌, ◌≤◌, ◌<◌, ◌≡◌, refl, sym, ◌∙◌, ap, inl, inr, Bool-cases, List, [],
  ◌∷◌, ◌++◌, append_assoc, append-nil, length, length-append, ltb, arith, Outcome, ok, ◌>>=◌,
}
use wasabi_os.BlockDevice.Group.{BlockGroup}
use wasabi_os.BlockList.{block_size, blocks_required_for, PartialBlockGroup, next_of, partials}
use wasabi_os.BlockList.Blocks.{
  run, blocks, length-run, run-add, total, before_last, IsSized, AreWhole, groups_of,
}
use wasabi_os.BlockList.Stepping.{
  blocks_required_for-le, blocks_required_for-add, next_within, next_whole, next_later,
}

-- What the iterator gives for the range of `n` bytes behind `k` blocks.
pub record Serves (gs : List BlockGroup) (k n : ℕ) (ps : List PartialBlockGroup) : Type 0 where
  pub front : List ℕ
  pub back : List ℕ
  pub divides : blocks gs ≡ front ++ (blocks (groups_of ps) ++ back)
  pub skipped : length front ≡ k
  pub needed : length (blocks (groups_of ps)) ≡ blocks_required_for n
  pub whole : AreWhole ps n

nil_of_length {ℓ} : {A : Type ℓ} (xs : List A) → length xs ≡ 0 → xs ≡ []
nil_of_length [] e = refl
nil_of_length (x ∷ xs) e = absurd (omega arith)

-- The range lies in the only group, whose blocks from `k` on are `r` and others.
only-Serves :
    (g : BlockGroup) (k n r : ℕ)
    → k + r ≤ g.count
    → r ≡ blocks_required_for n
    → 0 < n
    → Serves
        (g ∷ [])
        k
        n
        (record { group = record { start = g.start + k; count = r }; offset = 0; len = n } ∷ [])
only-Serves g k n r le e pos = record {
  front = run g.start k;
  back = run (g.start + k + r) (g.count - k - r);
  divides = append-nil (run g.start g.count) ∙ cut_in_three;
  skipped = length-run g.start k;
  needed = ap length (append-nil (run (g.start + k) r)) ∙ length-run (g.start + k) r ∙ e;
  whole = (refl, pos, omega arith, omega arith);
}
  where
    cut_in_three :
        run g.start g.count
        ≡ run g.start k ++ ((run (g.start + k) r ++ []) ++ run (g.start + k + r) (g.count - k - r))
    cut_in_three =
        ap (run g.start) {x = g.count} {y = k + (r + (g.count - k - r))} (omega arith)
        ∙ run-add g.start k (r + (g.count - k - r))
        ∙ ap (◌++◌ (run g.start k)) (
            run-add (g.start + k) r (g.count - k - r)
            ∙ ap (λ xs. xs ++ run (g.start + k + r) (g.count - k - r))
                (sym (append-nil (run (g.start + k) r))))

-- The range goes on in the next groups.
more-Serves :
    (g : BlockGroup) (gs : List BlockGroup) (k n : ℕ) (ps : List PartialBlockGroup)
    → k < g.count
    → (g.count - k) * block_size < n
    → Serves gs 0 (n - (g.count - k) * block_size) ps
    → Serves (g ∷ gs) k n (
        record {
          group = record { start = g.start + k; count = g.count - k };
          offset = 0;
          len = (g.count - k) * block_size;
        }
        ∷ ps)
more-Serves g gs k n ps lt over s = record {
  front = run g.start k;
  back = s.back;
  divides =
      ap (λ xs. run g.start g.count ++ xs)
        (s.divides
          ∙ ap (λ xs. xs ++ (blocks (groups_of ps) ++ s.back)) (nil_of_length s.front s.skipped))
      ∙ ap (λ xs. xs ++ (blocks (groups_of ps) ++ s.back)) cut_in_two
      ∙ append_assoc (run g.start k) (run (g.start + k) (g.count - k))
          (blocks (groups_of ps) ++ s.back)
      ∙ ap (◌++◌ (run g.start k))
          (sym (append_assoc (run (g.start + k) (g.count - k)) (blocks (groups_of ps)) s.back));
  skipped = length-run g.start k;
  needed =
      length-append (run (g.start + k) (g.count - k)) (blocks (groups_of ps))
      ∙ omega (
        arith,
        length-run (g.start + k) (g.count - k),
        s.needed,
        blocks_required_for-add n (g.count - k) (omega arith),
      );
  whole = (refl, omega arith, omega arith, s.whole);
}
  where
    cut_in_two : run g.start g.count ≡ run g.start k ++ run (g.start + k) (g.count - k)
    cut_in_two =
        ap (run g.start) {x = g.count} {y = k + (g.count - k)} (omega arith)
        ∙ run-add g.start k (g.count - k)

-- The range begins in a later group.
later-Serves :
    (g : BlockGroup) (gs : List BlockGroup) (k n : ℕ) (ps : List PartialBlockGroup)
    → g.count ≤ k
    → Serves gs (k - g.count) n ps
    → Serves (g ∷ gs) k n ps
later-Serves g gs k n ps le s = record {
  front = run g.start g.count ++ s.front;
  back = s.back;
  divides =
      ap (◌++◌ (run g.start g.count)) s.divides
      ∙ sym (append_assoc (run g.start g.count) s.front (blocks (groups_of ps) ++ s.back));
  skipped =
      length-append (run g.start g.count) s.front
      ∙ omega (arith, length-run g.start g.count, s.skipped);
  needed = s.needed;
  whole = s.whole;
}

-- Let the groups of a list be runs of addresses whose bytes fit in `u64`, and let a range of at
-- least one byte begin with a block and end in the last group. With more rounds than there are
-- groups, the iterator of partial groups never panics: the blocks of its groups are, in order,
-- those of the list behind the blocks in front of the range, as many as the bytes need, all offsets
-- are zero, and the lengths are positive and sum up to the bytes.
pub partials-Serves :
    (gs : List BlockGroup) (k n fuel : ℕ)
    → IsSized gs
    → 0 < n
    → before_last gs * block_size < k * block_size + n
    → k * block_size + n ≤ total gs * block_size
    → length gs < fuel
    → (ps : List PartialBlockGroup) × (partials fuel
          (record { group_iter = gs; skip_bytes = k * block_size; remaining_bytes = n })
        ≡ ok ps)
      × Serves gs k n ps
unfolding partials next_of
partials-Serves gs k n zero sized pos begins ends enough = absurd (omega arith)
partials-Serves [] k n (suc fuel) sized pos begins ends enough = absurd (omega arith)
partials-Serves (g ∷ []) k n (suc zero) sized pos begins ends enough = absurd (omega arith)
partials-Serves (g ∷ []) k n (suc (suc fuel)) sized pos begins ends enough =
    elim (Bool-cases (ltb n ((g.count - k) * block_size))) [
      | inl within ↦ (
        record {
          group = record { start = g.start + k; count = blocks_required_for n };
          offset = 0;
          len = n;
        }
            ∷ [],
        rw (next_within g [] k n sized.0 sized.1 (omega arith) pos (ground arith), ◌>>=◌) refl,
        only-Serves g k n (blocks_required_for n)
            (omega (arith, blocks_required_for-le n (g.count - k) (omega arith))) refl pos,
      )
      | inr whole ↦ (
        record { group = record { start = g.start + k; count = g.count - k }; offset = 0; len = n }
            ∷ [],
        rw (next_whole g [] k n sized.0 sized.1 (omega arith) pos (ground arith), ◌>>=◌)
            (as_one (ground arith)),
        only-Serves g k n (g.count - k) (omega arith) (ground arith) pos,
      )
    ]
  where
    as_one :
        n ≡ (g.count - k) * block_size
        → ◌≡◌ {A = Outcome (List PartialBlockGroup)}
            (ok (
              record {
                group = record { start = g.start + k; count = g.count - k };
                offset = 0;
                len = (g.count - k) * block_size;
              }
              ∷ []))
            (ok (
              record {
                group = record { start = g.start + k; count = g.count - k };
                offset = 0;
                len = n;
              }
              ∷ []))
    as_one e = rw (e) refl
partials-Serves (g ∷ h ∷ hs) k n (suc fuel) sized pos begins ends enough =
    elim (Bool-cases (ltb k g.count)) [
      | inl inside ↦
          let (ps, run_on, s) =
            partials-Serves (h ∷ hs) 0 (n - (g.count - k) * block_size) fuel sized.2 (ground arith)
              (ground arith) (ground arith) (omega arith) in
          (
            record {
              group = record { start = g.start + k; count = g.count - k };
              offset = 0;
              len = (g.count - k) * block_size;
            }
                ∷ ps,
            rw (next_whole g (h ∷ hs) k n sized.0 sized.1 (ground arith) pos (ground arith), ◌>>=◌)
                (rw (run_on, ◌>>=◌) refl),
            more-Serves g (h ∷ hs) k n ps (ground arith) (ground arith) s,
          )
      | inr later ↦
          let (ps, run_on, s) =
            partials-Serves (h ∷ hs) (k - g.count) n (suc fuel) sized.2 pos (ground arith)
              (ground arith) (omega arith) in
          (
            ps,
            rw (next_later g (h ∷ hs) k n sized.1 (ground arith)) run_on,
            later-Serves g (h ∷ hs) k n ps (ground arith) s,
          )
    ]
