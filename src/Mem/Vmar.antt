-- ===== src/Mem/Vmar.antt =====
-- src/mem/vmar.h and the ranges, gaps and links of src/mem/vmar.c. A vmar is a number into the store.
-- The tree of a region's children is the sequence of its nodes in address order, and what the code
-- asks of it is the argument `tree`. Every operation holds the vmar lock from its start to its end.
pub mod Place
pub mod Unmap
pub mod Dump
pub mod Tiles
pub mod Tests
use tomato.Base.{
  ℕ, ◌+◌, ◌*◌, ◌/◌, ◌%◌, ◌≡◌, ◌==◌, ltb, leb, Bool, true, false, not, ◌&&◌, Option, none, some,
  List, [], ◌∷◌, Run, ok, halt, ◌>>=◌, ◌>>◌, assert, if◌then◌else◌, update, u64_mod, add_u64,
  sub_u64, Err, success, internal_error,
}

-- `vmar_kind_t`
pub data Kind : Type 0 where
  region special mapping : Kind

pub record Vmar : Type 0 where
  pub base : ℕ
  pub page_count : ℕ
  pub parent : Option ℕ
  pub gap : ℕ
  pub kind : Kind
  pub unmapped : Bool
  pub locked : Bool
  -- `object.ref_count`, `region.children` and `mapping.page_table_lock`
  pub ref_count : ℕ
  pub children : List ℕ
  pub page_table_lock : ℕ

-- The sign of a comparison function's result.
pub data Sign : Type 0 where
  negative equal positive : Sign

-- What the code asks of src/lib/rbtree.
pub record Tree : Type 0 where
  pub rb_find : (key_cmp : ℕ → Sign) → List ℕ → Option ℕ
  -- the node that the new one compares equal to, or the tree with the new node
  pub rb_find_add : (cmp : ℕ → Sign) → ℕ → List ℕ → Option ℕ × List ℕ
  pub rb_find_first_fit : (fits : ℕ → Bool) → List ℕ → Option ℕ
  pub rb_erase : ℕ → List ℕ → List ℕ

abbrev pub Store : Type 0
Store = ℕ → Vmar

abbrev pub is_region : Kind → Bool
is_region Kind.region = true
is_region _ = false

abbrev pub is_null : Option ℕ → Bool
is_null none = true
is_null (some _) = false

-- `node.prev` and `node.next`
unfoldable pub prev_of : ℕ → List ℕ → Option ℕ
prev_of x [] = none
prev_of x (a ∷ []) = none
prev_of x (a ∷ b ∷ rest) = let later = prev_of x (b ∷ rest) in if b == x then some a else later

unfoldable pub next_of : ℕ → List ℕ → Option ℕ
next_of x [] = none
next_of x (a ∷ []) = none
next_of x (a ∷ b ∷ rest) = let later = next_of x (b ∷ rest) in if a == x then some b else later

unfoldable pub last_of : List ℕ → Option ℕ
last_of [] = none
last_of (a ∷ []) = some a
last_of (a ∷ b ∷ rest) = last_of (b ∷ rest)

abbrev pub vmar_first_page : Vmar → ℕ
vmar_first_page vmar = vmar.base / 4096

abbrev pub vmar_end_page : Vmar → ℕ
vmar_end_page vmar = add_u64 (vmar_first_page vmar) vmar.page_count

abbrev pub end_or_start : Option ℕ → (parent : ℕ) → Store → ℕ
end_or_start (some before) parent s = vmar_end_page (s before)
end_or_start none parent s = vmar_first_page (s parent)

-- The largest gaps of the subtrees belong to the tree.
unfoldable pub vmar_gap_update : ℕ → Store → Run Store
vmar_gap_update x s = elim (s x).parent [
  | none ↦ halt
  | some parent ↦
      let gap_start = end_or_start (prev_of x (s parent).children) parent s in
      ok (update s x (record (s x) { gap = sub_u64 (vmar_first_page (s x)) gap_start }))
]

-- The size of the gap after the last child, and its first page.
unfoldable pub vmar_tail_gap : (parent : ℕ) → Store → ℕ × ℕ
vmar_tail_gap parent s =
    let start = end_or_start (last_of (s parent).children) parent s in
    (sub_u64 (vmar_end_page (s parent)) start, start)

unfoldable pub vmar_compare_ranges : Vmar → Vmar → Sign
vmar_compare_ranges a b =
    if leb (vmar_end_page a) (vmar_first_page b)
    then Sign.negative
    else if leb (vmar_end_page b) (vmar_first_page a)
    then Sign.positive
    else Sign.equal

unfoldable pub vmar_check_in_parent : (parent child : Vmar) → Err
vmar_check_in_parent parent child =
    if leb u64_mod (vmar_first_page child + child.page_count)
    then internal_error
    else if ltb (vmar_first_page child) (vmar_first_page parent)
    then internal_error
    else if ltb (vmar_end_page parent) (vmar_first_page child + child.page_count)
    then internal_error
    else success

abbrev pub is_success : Err → Bool
is_success success = true
is_success _ = false

abbrev pub gap_update_next : Option ℕ → Store → Run Store
gap_update_next none s = ok s
gap_update_next (some next) s = vmar_gap_update next s

module _ (tree : Tree) where
  -- From the insertion into the tree on.
  abbrev pub link_at : (parent child : ℕ) → Option ℕ × List ℕ → Store → Run Store
  link_at parent child (clash, children) s =
      assert (is_null clash)
      >> (let tied = update s parent (record (s parent) { children = children }) in
          let linked = update tied child (record (tied child) { parent = some parent }) in
          vmar_gap_update child linked >>= λ measured.
          gap_update_next (next_of child children) measured)

  unfoldable pub vmar_link_internal : (parent child : ℕ) → Store → Run Store
  vmar_link_internal parent child s =
      assert (is_region (s parent).kind)
      >> assert (is_null (s child).parent)
      >> (let cleared = update s child (record (s child) { gap = 0 }) in
          link_at parent child
            (tree.rb_find_add (λ exist. vmar_compare_ranges (cleared child) (cleared exist)) child
              (cleared parent).children)
            cleared)

  unfoldable pub vmar_link : (parent child : ℕ) → Store → Run Store
  vmar_link parent child s =
      assert (is_success (vmar_check_in_parent (s parent) (s child)))
      >> vmar_link_internal parent child s
