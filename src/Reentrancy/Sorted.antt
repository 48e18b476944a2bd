-- ===== src/Reentrancy/Sorted.antt =====
-- evm/middlewares/reentrancy.rs: the depths of a slot as sorted lists without duplicates.
use ityfuzz_rl_src.Prelude.{
  ℕ, ◌<◌, ◌≡◌, refl, ap, ◌∙◌, inl, inr, Bool, true, false, ◌&&◌, ◌||◌, List, [], ◌∷◌, ◌++◌, arith,
  if◌then◌else◌, ltb, leb, ◌==◌, contains, filter, Bool-cases,
}
use ityfuzz_rl_src.Reentrancy.Tracer.{
  Slot, Entry, same_slot, depths_of, update, is_found, merge_at, merge_sorted_vec_dedup,
  found_smaller, scan, last_below, add_read, retain, insert_found,
}

abbrev pub Above : ℕ → List ℕ → Type 0
Above x [] = Unit
Above x (y ∷ ys) = (x < y) × Above x ys

abbrev pub IsSorted : List ℕ → Type 0
IsSorted [] = Unit
IsSorted (x ∷ xs) = Above x xs × IsSorted xs

Above-trans : (x y : ℕ) (ys : List ℕ) → x < y → Above y ys → Above x ys
Above-trans x y [] lt above = tt
Above-trans x y (z ∷ ys) lt above = (omega arith, Above-trans x y ys lt above.1)

contains-merge_at :
    (d x : ℕ) (b : Bool) (rest : List ℕ → List ℕ) (ys : List ℕ)
    → ((zs : List ℕ) → contains d (rest zs) ≡ (b || contains d zs))
    → contains d (merge_at x rest ys) ≡ ((x == d) || (b || contains d ys))
contains-merge_at d x b rest [] ih = ground (arith, ih [])
contains-merge_at d x b rest (y ∷ ys) ih =
    ground (arith, ih (y ∷ ys), ih ys, contains-merge_at d x b rest ys ih)

-- The merged list contains what one of the two contains.
pub contains-merge :
    (d : ℕ) (dst ys : List ℕ)
    → contains d (merge_sorted_vec_dedup dst ys) ≡ (contains d dst || contains d ys)
unfolding merge_sorted_vec_dedup
contains-merge d [] ys = refl
contains-merge d (x ∷ dst) ys =
    contains-merge_at d x (contains d dst) (λ zs. merge_sorted_vec_dedup dst zs) ys
      (λ zs. contains-merge d dst zs)
    ∙ ground arith

Above-contains : (x d : ℕ) (xs : List ℕ) → Above x xs → contains d xs ≡ true → x < d
Above-contains x d [] above has = ground (arith, has)
Above-contains x d (y ∷ xs) above has = elim (Bool-cases (contains d xs)) [
  | inl e ↦ Above-contains x d xs above.1 e
  | inr e ↦ (let here : (y == d) ≡ true = ground (arith, has, e) in ground arith)
]

-- Where the list is sorted, the loop collects all smaller elements.
pub contains-found_smaller :
    (d depth : ℕ) (xs : List ℕ)
    → IsSorted xs
    → contains d (found_smaller depth xs) ≡ (contains d xs && ltb d depth)
unfolding found_smaller
contains-found_smaller d depth [] sorted = refl
contains-found_smaller d depth (x ∷ xs) sorted = elim (Bool-cases (contains d xs)) [
  | inl e ↦
      (let above = Above-contains x d xs sorted.0 e in
        ground (arith, contains-found_smaller d depth xs sorted.1))
  | inr e ↦ ground (arith, contains-found_smaller d depth xs sorted.1)
]

contains-scan :
    (d depth : ℕ) (xs : List ℕ)
    → (contains d (scan depth xs) || (depth == d)) ≡ (contains d xs || (depth == d))
unfolding scan
contains-scan d depth [] = refl
contains-scan d depth (x ∷ xs) = ground (arith, contains-scan d depth xs)

last_below-tail :
    (depth x : ℕ) (xs : List ℕ)
    → ltb x depth ≡ true
    → last_below depth (x ∷ xs) ≡ false
    → last_below depth xs ≡ false
last_below-tail depth x [] below last = cc (below, last)
last_below-tail depth x (y ∷ xs) below last = last

-- After a loop that has stopped early, the depth is in the entry.
scan_stopped :
    (depth : ℕ) (xs : List ℕ)
    → last_below depth (scan depth xs) ≡ false
    → contains depth (scan depth xs) ≡ true
unfolding scan
scan_stopped depth [] last = cc last
scan_stopped depth (x ∷ xs) last = elim (Bool-cases (ltb x depth)) [
  | inl e ↦ rw e (
      let later = last_below-tail depth x (scan depth xs) e (rw e at last) in
      ground (arith, scan_stopped depth xs later))
  | inr e ↦ ground arith
]

contains-append :
    (d depth : ℕ) (xs : List ℕ) → contains d (xs ++ (depth ∷ [])) ≡ (contains d xs || (depth == d))
contains-append d depth [] = ground arith
contains-append d depth (x ∷ xs) = ground (arith, contains-append d depth xs)

pub contains-add_read :
    (d depth : ℕ) (xs : List ℕ) → contains d (add_read depth xs) ≡ (contains d xs || (depth == d))
unfolding add_read
contains-add_read d depth xs = elim (Bool-cases (last_below depth (scan depth xs))) [
  | inl e ↦ rw e (contains-append d depth (scan depth xs) ∙ contains-scan d depth xs)
  | inr e ↦ rw e (elim (Bool-cases (depth == d)) [
    | inl here ↦
        (let same : depth ≡ d = ground arith in
          let stopped = scan_stopped depth xs e in
          ground (arith, contains-scan d depth xs, ap (λ (k : ℕ). contains k (scan depth xs)) same))
    | inr other ↦ ground (arith, contains-scan d depth xs)
  ])
]

Above-scan : (w depth : ℕ) (xs : List ℕ) → w < depth → Above w xs → Above w (scan depth xs)
unfolding scan
Above-scan w depth [] lt above = tt
Above-scan w depth (x ∷ xs) lt above = ground (arith, Above-scan w depth xs lt above.1)

scan-IsSorted : (depth : ℕ) (xs : List ℕ) → IsSorted xs → IsSorted (scan depth xs)
unfolding scan
scan-IsSorted depth [] sorted = tt
scan-IsSorted depth (x ∷ xs) sorted = elim (Bool-cases (ltb x depth)) [
  | inl e ↦ rw e (Above-scan x depth xs (ground arith) sorted.0, scan-IsSorted depth xs sorted.1)
  | inr e ↦ rw e (elim (Bool-cases (x == depth)) [
    | inl same ↦ rw same sorted
    | inr other ↦ rw other (
        let less : depth < x = ground arith in
        ((less, Above-trans depth x xs less sorted.0), sorted))
  ])
]

Above-append : (w depth : ℕ) (xs : List ℕ) → w < depth → Above w xs → Above w (xs ++ (depth ∷ []))
Above-append w depth [] lt above = (lt, tt)
Above-append w depth (x ∷ xs) lt above = (above.0, Above-append w depth xs lt above.1)

head_below :
    (depth x : ℕ) (xs : List ℕ) → IsSorted (x ∷ xs) → last_below depth (x ∷ xs) ≡ true → x < depth
head_below depth x [] sorted last = ground (arith, last)
head_below depth x (y ∷ xs) sorted last =
    omega (arith, head_below depth y xs sorted.1 last, sorted.0.0)

append-IsSorted :
    (depth : ℕ) (xs : List ℕ)
    → IsSorted xs
    → last_below depth xs ≡ true
    → IsSorted (xs ++ (depth ∷ []))
append-IsSorted depth [] sorted last = (tt, tt)
append-IsSorted depth (x ∷ []) sorted last = ((head_below depth x [] sorted last, tt), (tt, tt))
append-IsSorted depth (x ∷ y ∷ xs) sorted last = (
  Above-append x depth (y ∷ xs) (head_below depth x (y ∷ xs) sorted last) sorted.0,
  append-IsSorted depth (y ∷ xs) sorted.1 last,
)

pub add_read-IsSorted : (depth : ℕ) (xs : List ℕ) → IsSorted xs → IsSorted (add_read depth xs)
unfolding add_read
add_read-IsSorted depth xs sorted =
    let scanned = scan-IsSorted depth xs sorted in
    elim (Bool-cases (last_below depth (scan depth xs))) [
      | inl e ↦ rw e (append-IsSorted depth (scan depth xs) scanned e)
      | inr e ↦ rw e scanned
    ]

pub depths_of-update :
    (k j : Slot) (depths : List ℕ) (m : List Entry)
    → depths_of j (update k depths m) ≡ (if same_slot k j then depths else depths_of j m)
depths_of-update k j depths [] = refl
depths_of-update k j depths (e ∷ m) = ground (arith, depths_of-update k j depths m)

pub depths_of-retain :
    (k : Slot) (depth : ℕ) (m : List Entry)
    → depths_of k (retain depth m) ≡ filter (λ x. leb x depth) (depths_of k m)
depths_of-retain k depth [] = refl
depths_of-retain k depth (e ∷ m) = ground (arith, depths_of-retain k depth m)

pub contains-filter :
    (d depth : ℕ) (xs : List ℕ)
    → contains d (filter (λ x. leb x depth) xs) ≡ (leb d depth && contains d xs)
contains-filter d depth [] = ground arith
contains-filter d depth (x ∷ xs) = ground (arith, contains-filter d depth xs)

is_found_same :
    (k j : Slot) (found : List Slot) → same_slot k j ≡ true → is_found k found ≡ is_found j found
is_found_same k j [] same = refl
is_found_same k j (s ∷ found) same = ground (arith, is_found_same k j found same)

pub is_found-insert :
    (hit : Bool) (k j : Slot) (found : List Slot)
    → is_found j (insert_found hit k found) ≡ ((same_slot k j && hit) || is_found j found)
is_found-insert hit k j found = elim (Bool-cases (same_slot k j)) [
  | inl e ↦ ground (arith, is_found_same k j found e)
  | inr e ↦ ground arith
]
