-- ===== src/BlockList/Blocks.antt =====
-- The blocks of a list of groups, one after the other.
use wasabi_os.Prelude.{
  ℕ, zero, suc, ◌+◌, ◌-◌, ◌*◌, ◌≤◌, ◌<◌, ◌≡◌, refl, ◌∙◌, ap, List, [], ◌∷◌, ◌++◌, length, arith,
  u64_max,
}
use wasabi_os.BlockDevice.Group.{BlockGroup, IsGroup}
use wasabi_os.BlockList.{block_size, PartialBlockGroup}

abbrev pub run : ℕ → ℕ → List ℕ
run start zero = []
run start (suc count) = start ∷ run (start + 1) count

abbrev pub blocks : List BlockGroup → List ℕ
blocks [] = []
blocks (g ∷ gs) = run g.start g.count ++ blocks gs

pub length-run : (start count : ℕ) → length (run start count) ≡ count
length-run start zero = refl
length-run start (suc count) = omega (arith, length-run (start + 1) count)

pub run-add : (start a b : ℕ) → run start (a + b) ≡ run start a ++ run (start + a) b
run-add start zero b =
    ap (run start) {x = 0 + b} {y = b} (omega arith)
    ∙ ap (λ n. run n b) {x = start} {y = start + 0} (omega arith)
run-add start (suc a) b =
    ap (run start) {x = suc a + b} {y = suc (a + b)} (omega arith)
    ∙ ap (◌∷◌ start) (
        run-add (start + 1) a b
        ∙ ap (λ n. run (start + 1) a ++ run n b) {x = start + 1 + a} {y = start + suc a}
            (omega arith))

-- The number of blocks, and that of those before the last group.
abbrev pub total : List BlockGroup → ℕ
total [] = 0
total (g ∷ gs) = g.count + total gs

abbrev pub before_last : List BlockGroup → ℕ
before_last [] = 0
before_last (g ∷ []) = 0
before_last (g ∷ h ∷ gs) = g.count + before_last (h ∷ gs)

-- The groups are runs of addresses, and the bytes of each fit in `u64`.
abbrev pub IsSized : List BlockGroup → Type 0
IsSized [] = Unit
IsSized (g ∷ gs) = IsGroup g × (g.count * block_size ≤ u64_max) × IsSized gs

-- Whole blocks from their start, with `bytes` bytes used.
abbrev pub AreWhole : List PartialBlockGroup → ℕ → Type 0
AreWhole [] bytes = bytes ≡ 0
AreWhole (p ∷ ps) bytes =
    (p.offset ≡ 0) × (0 < p.len) × (p.len ≤ bytes) × AreWhole ps (bytes - p.len)

abbrev pub groups_of : List PartialBlockGroup → List BlockGroup
groups_of [] = []
groups_of (p ∷ ps) = p.group ∷ groups_of ps
