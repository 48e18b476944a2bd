-- ===== src/Reentrancy/Tracer.antt =====
-- evm/middlewares/reentrancy.rs: `ReentrancyData`, and what `ReentrancyTracer` does to it. A slot is
-- its address and its index; a depth is the number of pending post-executions.
use ityfuzz_rl_src.Prelude.{
  ℕ, ◌+◌, ◌-◌, ◌%◌, ◌^◌, Bool, true, false, not, ◌&&◌, ◌||◌, List, [], ◌∷◌, ◌++◌, if◌then◌else◌,
  ltb, leb, ◌==◌, contains, filter,
}

pub record Slot : Type 0 where
  pub address : ℕ
  pub index : ℕ

abbrev pub same_slot : Slot → Slot → Bool
same_slot a b = (a.address == b.address) && (a.index == b.index)

-- `HashMap<(EVMAddress, EVMU256), Vec<u32>>`, where a missing slot reads as its default.
pub record Entry : Type 0 where
  pub slot : Slot
  pub depths : List ℕ

abbrev pub depths_of : Slot → List Entry → List ℕ
depths_of k [] = []
depths_of k (e ∷ m) = let rest = depths_of k m in if same_slot e.slot k then e.depths else rest

-- A write through `entry(slot).or_default()`.
abbrev pub update : Slot → List ℕ → List Entry → List Entry
update k depths [] = record { slot = k; depths = depths } ∷ []
update k depths (e ∷ m) =
    let rest = e ∷ update k depths m in
    if same_slot e.slot k then record { slot = e.slot; depths = depths } ∷ m else rest

pub record ReentrancyData : Type 0 where
  pub reads : List Entry
  pub need_writes : List Entry
  pub found : List Slot

abbrev pub is_found : Slot → List Slot → Bool
is_found k [] = false
is_found k (s ∷ found) = same_slot s k || is_found k found

-- The loop with both iterators, at the next value of the first one.
abbrev pub merge_at : ℕ → (List ℕ → List ℕ) → List ℕ → List ℕ
merge_at x rest [] = x ∷ rest []
merge_at x rest (y ∷ ys) =
    let later = merge_at x rest ys in
    if ltb x y then x ∷ rest (y ∷ ys) else (if ltb y x then y ∷ later else x ∷ rest ys)

unfoldable pub merge_sorted_vec_dedup : List ℕ → List ℕ → List ℕ
merge_sorted_vec_dedup [] another_one = another_one
merge_sorted_vec_dedup (x ∷ dst) another_one =
    merge_at x (λ ys. merge_sorted_vec_dedup dst ys) another_one

-- `found_smaller`, and the entry after the loop: both stop at the first element that is not smaller.
unfoldable pub found_smaller : ℕ → List ℕ → List ℕ
found_smaller depth [] = []
found_smaller depth (x ∷ entry) =
    let rest = found_smaller depth entry in if ltb x depth then x ∷ rest else []

unfoldable pub scan : ℕ → List ℕ → List ℕ
scan depth [] = []
scan depth (x ∷ entry) =
    let rest = scan depth entry in
    if ltb x depth then x ∷ rest else (if x == depth then x ∷ entry else depth ∷ x ∷ entry)

abbrev pub last_below : ℕ → List ℕ → Bool
last_below depth [] = true
last_below depth (x ∷ []) = ltb x depth
last_below depth (x ∷ y ∷ entry) = last_below depth (y ∷ entry)

unfoldable pub add_read : ℕ → List ℕ → List ℕ
unfolding scan
add_read depth entry =
    let scanned = scan depth entry in
    if last_below depth scanned then scanned ++ (depth ∷ []) else scanned

abbrev pub add_needs : Slot → List ℕ → List Entry → List Entry
add_needs k [] need_writes = need_writes
add_needs k (d ∷ smaller) need_writes =
    update k (merge_sorted_vec_dedup (depths_of k need_writes) (d ∷ smaller)) need_writes

-- `on_step` at SLOAD and at SSTORE.
unfoldable pub on_sload : Slot → ℕ → ReentrancyData → ReentrancyData
unfolding add_read found_smaller
on_sload k depth r =
    let entry = depths_of k r.reads in
    record r {
      reads = update k (add_read depth entry) r.reads;
      need_writes = add_needs k (found_smaller depth entry) r.need_writes;
    }

-- Into the `HashSet` of found slots, when the test is passed.
abbrev pub insert_found : Bool → Slot → List Slot → List Slot
insert_found hit k found = if hit && not (is_found k found) then k ∷ found else found

unfoldable pub on_sstore : Slot → ℕ → ReentrancyData → ReentrancyData
on_sstore k depth r =
    let entry = depths_of k r.need_writes in
    record r {
      need_writes = update k entry r.need_writes;
      found = insert_found (contains depth entry) k r.found;
    }

abbrev pub retain : ℕ → List Entry → List Entry
retain depth [] = []
retain depth (e ∷ m) =
    record { slot = e.slot; depths = filter (λ x. leb x depth) e.depths } ∷ retain depth m

-- `before_execute`, given the number of pending post-executions; it wraps around at 0.
unfoldable pub before_execute : Bool → ℕ → ReentrancyData → ReentrancyData
before_execute false pending r = r
before_execute true pending r = record r {
  need_writes = retain ((pending % 2 ^ 32 + (2 ^ 32 - 1)) % 2 ^ 32) r.need_writes;
}
