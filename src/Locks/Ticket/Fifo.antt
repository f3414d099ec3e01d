-- ===== src/Locks/Ticket/Fifo.antt =====
-- What a fair lock promises: the contexts that want it stand in a queue, and its head owns it.
use wasabi_os.Prelude.{ℕ, ◌≢◌, List, [], ◌∷◌, ◌++◌, some, get_elem?}

-- Context `i` joins at the end, leaves at the head, or does neither.
pub data Moves (i : ℕ) : List ℕ → List ℕ → Type 0 where
  stay : {q : List ℕ} → Moves i q q
  join : {q : List ℕ} → ((d : ℕ) → get_elem? q d ≢ some i) → Moves i q (q ++ i ∷ [])
  leave : {q : List ℕ} → Moves i (i ∷ q) q

-- The queues that `n` contexts can come to from an empty one.
pub data Queue (n : ℕ) : List ℕ → Type 0 where
  empty : Queue n []
  moved : {q r : List ℕ} (i : ℕ) → Queue n q → Moves i q r → Queue n r
