-- ===== src/Mem/Vmar/Place.antt =====
-- src/mem/vmar.c: the search for a place, the operations that create a vmar, and those that read the
-- tree. What they ask of the page tables and of the object allocator is the argument `services`.
use tomato.Base.{
  ℕ, suc, zero, ◌+◌, ◌*◌, ◌/◌, ◌%◌, ◌==◌, ltb, leb, Bool, true, false, not, Option, none, some, [],
  Run, ok, halt, ◌>>=◌, ◌>>◌, assert, if◌then◌else◌, update, u64_mod, add_u64, sub_u64, Err,
  success, internal_error, invalid_argument, out_of_resources,
}
use tomato.Mem.Vmar.{
  Kind, Vmar, Sign, Tree, Store, is_region, is_null, is_success, vmar_first_page, vmar_end_page,
  vmar_tail_gap, vmar_compare_ranges, vmar_check_in_parent, vmar_link_internal,
}
use tomato.Sync.Locks.{mutex_lock, mutex_unlock}

-- src/mem/virt.c and the allocator of `vmar_t`, with their own state.
pub record Services (State : Type 0) : Type 0 where
  pub virt_reserve_page_tables : (base page_count : ℕ) → State → Run (Err × State)
  pub virt_populate : (base page_count : ℕ) (global : Bool) → State → Run State
  pub virt_make_global : (base page_count : ℕ) → State → Run State
  pub virt_free : (base page_count : ℕ) → State → Run State
  -- `ALLOC(vmar_t)`, a zeroed object, and `FREE(vmar_t, vmar)`
  pub alloc_vmar : State → Option ℕ × State
  pub free_vmar : ℕ → State → State

-- `VMAR_ANY_OFFSET`
abbrev pub any_offset : ℕ
any_offset = 18446744073709551615

abbrev pub is_mapping : Kind → Bool
is_mapping Kind.mapping = true
is_mapping _ = false

abbrev pub vmar_address_find_cmp : (address : ℕ) → Vmar → Sign
vmar_address_find_cmp address vmar =
    let page = address / 4096 in
    if ltb page (vmar_first_page vmar)
    then Sign.negative
    else if leb (vmar_end_page vmar) page
    then Sign.positive
    else Sign.equal

-- A vmar as `vmar_allocate` and `vmar_map` set it up: one reference for the tree, one for the caller.
abbrev pub new_vmar : Kind → Vmar
new_vmar kind = record {
  base = 0;
  page_count = 0;
  parent = none;
  gap = 0;
  kind = kind;
  unmapped = false;
  locked = false;
  ref_count = 2;
  children = [];
  page_table_lock = 0;
}

module _ (tree : Tree) where
  unfoldable pub vmar_find_gap : (parent page_count : ℕ) → Store → Option ℕ
  vmar_find_gap parent page_count s =
      let (tail_gap, gap_start) = vmar_tail_gap parent s in
      elim (tree.rb_find_first_fit (λ x. leb page_count (s x).gap) (s parent).children) [
        | some x ↦ some (sub_u64 (vmar_first_page (s x)) (s x).gap)
        | none ↦ if leb page_count tail_gap then some gap_start else none
      ]

  unfoldable pub vmar_find_any : (parent child page_count : ℕ) → Store → Err × Store
  vmar_find_any parent child page_count s = elim (vmar_find_gap parent page_count s) [
    | none ↦ (internal_error, s)
    | some page ↦ (success, update s child (record (s child) { base = page * 4096 % u64_mod }))
  ]

  unfoldable pub vmar_find_fixed : (parent child offset : ℕ) → Store → Err × Store
  vmar_find_fixed parent child offset s =
      if not (offset % 4096 == 0)
      then (internal_error, s)
      else if leb u64_mod ((s parent).base + offset)
      then (internal_error, s)
      else let placed = update s child (record (s child) { base = (s parent).base + offset }) in
        if not (is_success (vmar_check_in_parent (placed parent) (placed child)))
        then (internal_error, placed)
        else if is_null (
            tree.rb_find (λ exist. vmar_compare_ranges (placed child) (placed exist))
              (placed parent).children)
        then (success, placed)
        else (internal_error, placed)

  unfoldable pub vmar_find_place : (parent child offset page_count : ℕ) → Store → Err × Store
  vmar_find_place parent child offset page_count s =
      if (s parent).unmapped
      then (internal_error, s)
      else let sized = update s child (record (s child) { page_count = page_count }) in
        if offset == any_offset
        then vmar_find_any parent child page_count sized
        else vmar_find_fixed parent child offset sized

  abbrev pub link_if_placed : (parent child : ℕ) → Err × Store → Run (Err × Store)
  link_if_placed parent child (success, s) =
      vmar_link_internal tree parent child s >>= λ linked. ok (success, linked)
  link_if_placed parent child (err, s) = ok (err, s)

  unfoldable pub vmar_allocate_static :
      (parent child offset page_count : ℕ) → Store → Run (Err × Store)
  vmar_allocate_static parent child offset page_count s =
      if not (is_region (s parent).kind)
      then ok (invalid_argument, s)
      else if page_count == 0
      then ok (invalid_argument, s)
      else link_if_placed parent child (vmar_find_place parent child offset page_count s)

  unfoldable pub vmar_find_internal : (root address : ℕ) → Store → Run (Option ℕ)
  vmar_find_internal root address s =
      assert (is_region (s root).kind)
      >> ok (tree.rb_find (λ x. vmar_address_find_cmp address (s x)) (s root).children)

  module _ {State : Type 0} (services : Services State) where
    -- What an operation that creates a vmar returns: its status, the new vmar, and the states.
    abbrev pub Created : Type 0
    Created = Err × Option ℕ × Store × State

    -- The caller sees the new vmar on success, and the object is freed on an error.
    abbrev pub hand_over : (child : ℕ) → State → Err × Store → Created
    hand_over child m (success, s) = (success, some child, s, m)
    hand_over child m (err, s) = (err, none, s, services.free_vmar child m)

    unfoldable pub vmar_allocate : (parent offset page_count : ℕ) → Store → State → Run Created
    vmar_allocate parent offset page_count s m =
        if not (is_region (s parent).kind)
        then ok (invalid_argument, none, s, m)
        else if page_count == 0
        then ok (invalid_argument, none, s, m)
        else let (object, m') = services.alloc_vmar m in
          elim object [
            | none ↦ ok (out_of_resources, none, s, m')
            | some child ↦
                vmar_allocate_static parent child offset page_count
                  (update s child (new_vmar Kind.region))
                >>= λ result. ok (hand_over child m' result)
          ]

    abbrev pub link_if_reserved : (parent child : ℕ) → Store → Err × State → Run Created
    link_if_reserved parent child s (success, m) =
        vmar_link_internal tree parent child s >>= λ linked. ok (success, some child, linked, m)
    link_if_reserved parent child s (err, m) = ok (err, none, s, services.free_vmar child m)

    abbrev pub map_if_placed : (parent child : ℕ) → State → Err × Store → Run Created
    map_if_placed parent child m (success, s) =
        services.virt_reserve_page_tables (s child).base (s child).page_count m >>= λ reserved.
        link_if_reserved parent child s reserved
    map_if_placed parent child m (err, s) = ok (err, none, s, services.free_vmar child m)

    unfoldable pub vmar_map : (parent offset page_count : ℕ) → Store → State → Run Created
    vmar_map parent offset page_count s m =
        if not (is_region (s parent).kind)
        then ok (invalid_argument, none, s, m)
        else if page_count == 0
        then ok (invalid_argument, none, s, m)
        else let (object, m') = services.alloc_vmar m in
          elim object [
            | none ↦ ok (out_of_resources, none, s, m')
            | some child ↦
                let created = update s child (new_vmar Kind.mapping) in
                map_if_placed parent child m'
                  (vmar_find_place parent child offset page_count created)
          ]

    -- The lock of the mapping is taken and released again.
    unfoldable pub vmar_populate : ℕ → Store → State → Run (Err × State)
    vmar_populate x s m =
        if not (is_mapping (s x).kind)
        then ok (invalid_argument, m)
        else mutex_lock false (s x).page_table_lock >>= λ held.
            (if (s x).unmapped
              then ok (internal_error, m)
              else services.virt_populate (s x).base (s x).page_count (s x).locked m >>= λ m'.
                  ok (success, m'))
            >>= λ result. mutex_unlock held >>= λ _. ok result

  -- The loop of `vmar_find_mapping`, from the vmar that it looks in. The levels bound the depth.
  unfoldable pub vmar_find_leaf : (levels root address : ℕ) → Store → Run (Option ℕ)
  vmar_find_leaf zero root address s = halt
  vmar_find_leaf (suc levels) root address s = vmar_find_internal root address s >>= λ found.
      elim found [
        | none ↦ ok none
        | some x ↦ elim (is_region (s x).kind) [
          | true ↦ vmar_find_leaf levels x address s
          | false ↦ ok (some x)
        ]
      ]

  -- The mapping that is found has a reference more and its lock taken.
  abbrev pub take_mapping : Option ℕ → Store → Run (Option ℕ × Store)
  take_mapping none s = ok (none, s)
  take_mapping (some x) s =
      if not (is_mapping (s x).kind)
      then ok (none, s)
      else mutex_lock false (s x).page_table_lock >>= λ held. ok (
        some x,
        update s x (record (s x) { ref_count = add_u64 (s x).ref_count 1; page_table_lock = held }),
      )

  unfoldable pub vmar_find_mapping : (levels root address : ℕ) → Store → Run (Option ℕ × Store)
  vmar_find_mapping levels root address s =
      vmar_find_leaf levels root address s >>= λ found. take_mapping found s
