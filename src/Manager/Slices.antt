-- ===== src/Manager/Slices.antt =====
-- Go's slices: several of them may share one array, and `append` writes into the array where it has
-- room. How much room the runtime leaves in a new array is an argument.
use sleepyservice.Prelude.{
  ℕ, zero, suc, ◌+◌, Option, none, some, List, [], ◌∷◌, if◌then◌else◌, ltb, ◌==◌, ◌&&◌,
}

pub record Slice : Type 0 where
  pub array : ℕ
  pub length : ℕ
  pub capacity : ℕ

-- `var s []T`
abbrev pub nil_slice : Slice
nil_slice = record { array = 0; length = 0; capacity = 0 }

-- The arrays by their number, and the number of the next new one.
pub record Memory (A : Type 0) : Type 0 where
  pub next : ℕ
  pub cells : ℕ → ℕ → Option A

abbrev pub empty_memory : {A : Type 0} → Memory A
empty_memory = record { next = 0; cells = λ a i. none }

abbrev write : {A : Type 0} → ℕ → ℕ → A → (ℕ → ℕ → Option A) → ℕ → ℕ → Option A
write array index x cells a i = if a == array && i == index then some x else cells a i

-- The array of a slice copied to a new number.
abbrev copy : {A : Type 0} → ℕ → ℕ → (ℕ → ℕ → Option A) → ℕ → ℕ → Option A
copy new old cells a i = if a == new then cells old i else cells a i

module _ {A : Type 0} (spare : ℕ → ℕ) where
  -- A full array is replaced by one with `spare n` free places for one element more than its `n`.
  unfoldable pub append : Slice → A → Memory A → Slice × Memory A
  append s x m =
      if ltb s.length s.capacity
      then (
        record s { length = suc s.length },
        record m { cells = write s.array s.length x m.cells },
      )
      else (
        record { array = m.next; length = suc s.length; capacity = suc s.length + spare s.length },
        record { next = suc m.next; cells = write m.next s.length x (copy m.next s.array m.cells) },
      )

abbrev with_cell : {A : Type 0} → Option A → List A → List A
with_cell none rest = rest
with_cell (some x) rest = x ∷ rest

abbrev cells_from : {A : Type 0} → (ℕ → Option A) → ℕ → ℕ → List A
cells_from cells i zero = []
cells_from cells i (suc n) = with_cell (cells i) (cells_from cells (suc i) n)

-- What a loop over the slice visits.
unfoldable pub elements : {A : Type 0} → Slice → Memory A → List A
elements s m = cells_from (m.cells s.array) 0 s.length
