-- ===== src/Boot/Cores.antt =====
-- src/boot/entry.c: `start_cores`, which numbers the cores. A core of the bootloader's answer is its
-- `lapic_id`, and what it gets is its `extra_argument`, the number that `core_entry` runs with.
use tomato.Base.{
  ℕ, suc, ◌+◌, ◌-◌, ◌≤◌, ◌≡◌, ◌==◌, ltb, leb, ◌&&◌, Option, none, some, List, [], ◌∷◌,
  if◌then◌else◌, arith, Bool-cases, inl, inr,
}

-- The loop over the cores, from a number on.
unfoldable pub number_cores : (bsp_lapic_id cpu_id : ℕ) → List ℕ → List ℕ
number_cores bsp_lapic_id cpu_id [] = []
number_cores bsp_lapic_id cpu_id (lapic_id ∷ rest) =
    let first = number_cores bsp_lapic_id cpu_id rest in
    let next = number_cores bsp_lapic_id (cpu_id + 1) rest in
    if lapic_id == bsp_lapic_id then 0 ∷ first else cpu_id ∷ next

-- Number 0 is reserved for the core that boots; without an answer no core is started.
unfoldable pub start_cores : (bsp_lapic_id : ℕ) → Option (List ℕ) → List ℕ
start_cores bsp_lapic_id none = []
start_cores bsp_lapic_id (some cpus) = number_cores bsp_lapic_id 1 cpus

-- How often a number occurs.
unfoldable pub occurrences : ℕ → List ℕ → ℕ
occurrences n [] = 0
occurrences n (m ∷ rest) = (if m == n then 1 else 0) + occurrences n rest

unfoldable pub core_count : List ℕ → ℕ
core_count [] = 0
core_count (lapic_id ∷ rest) = suc (core_count rest)

-- 1 for a number in the range, 0 for another one.
in_range : (from size n : ℕ) → ℕ
in_range from size n = if leb from n && ltb n (from + size) then 1 else 0

occurrences-le : (n : ℕ) (cpus : List ℕ) → occurrences n cpus ≤ core_count cpus
unfolding occurrences core_count
occurrences-le n [] = omega arith
occurrences-le n (c ∷ cpus) = ground (arith, occurrences-le n cpus)

occurrences-number_cores :
    (bsp id n : ℕ) (cpus : List ℕ)
    → 1 ≤ id
    → occurrences n (number_cores bsp id cpus)
      ≡ (if 0 == n then occurrences bsp cpus else 0)
        + in_range id (core_count cpus - occurrences bsp cpus) n
unfolding occurrences number_cores core_count in_range
occurrences-number_cores bsp id n [] h = ground arith
occurrences-number_cores bsp id n (c ∷ cpus) h =
    let most = occurrences-le bsp cpus in
    elim (Bool-cases (c == bsp)) [
      | inl here ↦
          rw (number_cores, here) (ground (arith, occurrences-number_cores bsp id n cpus h))
      | inr other ↦
          rw (number_cores, other)
            (ground (arith, occurrences-number_cores bsp (id + 1) n cpus (omega arith)))
    ]

-- Where the core that boots is in the answer once, `start_cores` gives every number below the count of the
-- cores to exactly one core, and no other number.
pub start_cores-numbers :
    (bsp_lapic_id n : ℕ) (cpus : List ℕ)
    → occurrences bsp_lapic_id cpus ≡ 1
    → occurrences n (start_cores bsp_lapic_id (some cpus))
      ≡ (if ltb n (core_count cpus) then 1 else 0)
unfolding start_cores in_range
start_cores-numbers bsp_lapic_id n cpus once =
    let all = occurrences-number_cores bsp_lapic_id 1 n cpus (omega arith) in
    let some_core = occurrences-le bsp_lapic_id cpus in ground arith
