-- ===== src/BlockAllocator/Saving/Iterating.antt =====
-- modules/wasabi-fs/src/block_allocator.rs: the blocks that the iterators give.
use wasabi_os.Prelude.{
  ℕ, zero, suc, ◌+◌, ◌-◌, ◌≤◌, ◌<◌, ◌≡◌, refl, ap, ◌∙◌, true, false, Option, none, some, List, [],
  ◌∷◌, ◌++◌, lt→ltb, if◌then◌else◌, subst, ◌==◌, ok, u64_max, arith,
}
use wasabi_os.BlockDevice.Lba
use wasabi_os.BlockDevice.Group.{BlockGroup}
use wasabi_os.BlockAllocator.Saving.{
  BlockGroupListBlockIter, block_iter, step_in, next, Peekable, peek, next_peeked,
}

-- `n` blocks from `start`.
abbrev pub blocks_from : ℕ → ℕ → List ℕ
blocks_from start zero = []
blocks_from start (suc n) = start ∷ blocks_from (start + 1) n

-- The blocks of the groups, in order.
abbrev pub blocks_of : List BlockGroup → List ℕ
blocks_of [] = []
blocks_of (g ∷ gs) = blocks_from g.start g.count ++ blocks_of gs

abbrev pub head? : List ℕ → Option ℕ
head? [] = none
head? (b ∷ bs) = some b

-- Groups of at least one block whose blocks are addresses.
abbrev pub AreGroups : List BlockGroup → Type 0
AreGroups [] = Unit {0}
AreGroups (g ∷ gs) = (1 ≤ g.count) × (g.start + g.count ≤ u64_max) × AreGroups gs

-- The iterator gives these blocks, one by one, and then no more.
abbrev pub Yields : BlockGroupListBlockIter → List ℕ → Type 0
Yields it [] = next it ≡ ok (none, it)
Yields it (b ∷ bs) =
    (rest : BlockGroupListBlockIter) × (next it ≡ ok (some b, rest)) × Yields rest bs

-- The same of a peekable iterator, with what it looked at in front.
abbrev pub GivesBehind : BlockGroupListBlockIter → Option (Option ℕ) → List ℕ → Type 0
GivesBehind it none bs = Yields it bs
GivesBehind it (some none) bs = (bs ≡ []) × Yields it []
GivesBehind it (some (some b)) bs = (rest : List ℕ) × (bs ≡ b ∷ rest) × Yields it rest

abbrev pub Gives : Peekable → List ℕ → Type 0
Gives p bs = GivesBehind p.iter p.peeked bs

step_in_lem :
    (g : BlockGroup) (it : BlockGroupListBlockIter)
    → it.current_index < g.count
    → g.start + g.count ≤ u64_max
    → step_in g it
      ≡ ok (
        some (g.start + it.current_index),
        if it.current_index == g.count - 1
            then record it { current_group = none; current_index = 0 }
            else record it { current_group = some g; current_index = it.current_index + 1 },
      )
step_in_lem g it lt w =
    rw (lt→ltb it.current_index g.count lt, Lba.add_lem g.start it.current_index (omega arith))

-- The rest of a group, from the index on, with the step that gives the next block.
steps :
    (n : ℕ) (g : BlockGroup) (it : BlockGroupListBlockIter)
    → it.current_index + suc n ≡ g.count
    → g.start + g.count ≤ u64_max
    → Yields (block_iter it.group_iter) (blocks_of it.group_iter)
    → (rest : BlockGroupListBlockIter) × (step_in g it
        ≡ ok (some (g.start + it.current_index), rest))
      × Yields rest (blocks_from (g.start + it.current_index + 1) n ++ blocks_of it.group_iter)
unfolding next
steps zero g it e w y =
    let last : (it.current_index == g.count - 1) ≡ true = ground arith in
    (block_iter it.group_iter, step_in_lem g it (omega arith) w ∙ rw last, y)
steps (suc n) g it e w y =
    let inner : (it.current_index == g.count - 1) ≡ false = ground arith in
    let on : BlockGroupListBlockIter = record it {
      current_group = some g;
      current_index = it.current_index + 1;
    } in
    let (rest, run, more) = steps n g on (omega arith) w y in
    let place : g.start + (it.current_index + 1) ≡ g.start + it.current_index + 1 = omega arith in
    (
      on,
      step_in_lem g it (omega arith) w ∙ rw inner,
      subst (λ b. Yields on (blocks_from b (suc n) ++ blocks_of it.group_iter)) place
          (rest, run, more),
    )

-- For groups of at least one block whose blocks are addresses, the iterator gives the blocks of the
-- groups in order, one by one and without a panic, and then no more.
pub block_iter-Yields :
    (gs : List BlockGroup) → AreGroups gs → Yields (block_iter gs) (blocks_of gs)
unfolding next
block_iter-Yields [] v = refl
block_iter-Yields (g ∷ gs) v =
    let first : BlockGroupListBlockIter = record {
      group_iter = gs;
      current_group = none;
      current_index = 0;
    } in
    let some_blocks : suc (g.count - 1) ≡ g.count = omega (arith, v.0) in
    let at : g.start + 0 ≡ g.start = omega arith in
    subst (λ n. Yields (block_iter (g ∷ gs)) (blocks_from g.start n ++ blocks_of gs)) some_blocks
      (subst (λ b. Yields (block_iter (g ∷ gs)) (blocks_from b (suc (g.count - 1)) ++ blocks_of gs))
        at (steps (g.count - 1) g first (omega (arith, v.0)) v.1 (block_iter-Yields gs v.2)))

peek_behind :
    (it : BlockGroupListBlockIter) (seen : Option (Option ℕ)) (bs : List ℕ)
    → GivesBehind it seen bs
    → (q : Peekable) × (peek (record { iter = it; peeked = seen }) ≡ ok (head? bs, q)) × Gives q bs
unfolding peek
peek_behind it none [] g = (record { iter = it; peeked = some none }, rw g, (refl, g))
peek_behind it none (b ∷ bs) g =
    (record { iter = g.0; peeked = some (some b) }, rw (g.1), (bs, refl, g.2))
peek_behind it (some none) bs g = (record { iter = it; peeked = some none }, rw (g.0), g)
peek_behind it (some (some b)) bs g = (record { iter = it; peeked = some (some b) }, rw (g.1), g)

-- Looking at the next block does not take it.
pub peek-Gives :
    (p : Peekable) (bs : List ℕ)
    → Gives p bs
    → (q : Peekable) × (peek p ≡ ok (head? bs, q)) × Gives q bs
peek-Gives p bs g = peek_behind p.iter p.peeked bs g

tails : {b c : ℕ} {bs cs : List ℕ} → b ∷ bs ≡ c ∷ cs → cs ≡ bs
tails e = cc

next_behind :
    (it : BlockGroupListBlockIter) (seen : Option (Option ℕ)) (b : ℕ) (bs : List ℕ)
    → GivesBehind it seen (b ∷ bs)
    → (q : Peekable) × (next_peeked (record { iter = it; peeked = seen }) ≡ ok (some b, q))
      × Gives q bs
unfolding next_peeked
next_behind it none b bs g = (record { iter = g.0; peeked = none }, rw (g.1), g.2)
next_behind it (some none) b bs g = absurd cc
next_behind it (some (some c)) b bs g = (
  record { iter = it; peeked = none },
  ap (λ d. ok (some d, record { iter = it; peeked = none })) cc,
  subst (Yields it) {x = g.0} {y = bs} (tails g.1) g.2,
)

pub next_peeked-Gives :
    (p : Peekable) (b : ℕ) (bs : List ℕ)
    → Gives p (b ∷ bs)
    → (q : Peekable) × (next_peeked p ≡ ok (some b, q)) × Gives q bs
next_peeked-Gives p b bs g = next_behind p.iter p.peeked b bs g

end_behind :
    (it : BlockGroupListBlockIter) (seen : Option (Option ℕ))
    → GivesBehind it seen []
    → (q : Peekable) × (next_peeked (record { iter = it; peeked = seen }) ≡ ok (none, q))
unfolding next_peeked
end_behind it none g = (record { iter = it; peeked = none }, rw g)
end_behind it (some none) g = (record { iter = it; peeked = none }, refl)
end_behind it (some (some b)) g = absurd cc

pub next_peeked-end : (p : Peekable) → Gives p [] → (q : Peekable) × (next_peeked p ≡ ok (none, q))
next_peeked-end p g = end_behind p.iter p.peeked g
