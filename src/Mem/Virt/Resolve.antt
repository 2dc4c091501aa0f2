-- ===== src/Mem/Virt/Resolve.antt =====
-- src/mem/virt.c: what the page-fault handler does with a fault in a mapping that is reserved.
use tomato.Base.{
  ℕ, ◌+◌, ◌≤◌, ◌<◌, ◌≡◌, refl, sym, ap, ◌∙◌, true, false, ◌||◌, Option, some, Run, ok, halt,
  Returns, ◌>>=◌, ltb, arith, if◌then◌else◌, update, update-cases, update_self, update_ne, u64_mod,
  Err, success, inl, inr, add_u64, sub_u64,
}
use tomato.Mem.Vmar.{Tree, Store, Kind, Vmar}
use tomato.Mem.Vmar.Place.{vmar_find_leaf, take_mapping, vmar_find_mapping}
use tomato.Mem.Vmar.Unmap.{vmar_put}
use tomato.Mem.Virt.{Frames, Paging, page_at}
use tomato.Mem.Virt.Walk.{Grows}
use tomato.Mem.Virt.Reserve.{AllReach}
use tomato.Mem.Virt.Populate.{IsMapped, Supplies, Populated, virt_populate-Populated}
use tomato.Mem.Virt.Fault.{
  is_protection, is_user, is_fetch, is_valid, virt, release, handle_mapping,
  virt_page_fault_handler,
}
use tomato.Sync.Locks.{mutex_lock, mutex_unlock}

-- A mapping that is linked, with its lock free and its count of references in range.
pub record IsReady (v : Vmar) : Type 0 where
  pub mapping : v.kind ≡ Kind.mapping
  pub unlocked : v.page_table_lock ≡ 0
  pub held : 1 ≤ v.ref_count
  pub bounded : v.ref_count + 1 < u64_mod

-- The mapping while the handler works on it.
abbrev pinned : Vmar → Vmar
pinned v = record v { ref_count = add_u64 v.ref_count 1; page_table_lock = 1 }

restored :
    (v : Vmar) (count lock : ℕ)
    → count ≡ v.ref_count
    → lock ≡ v.page_table_lock
    → record v { ref_count = count; page_table_lock = lock } ≡ v
restored v count lock e f = rw (e, f) refl

module _ (tree : Tree) {State : Type 0} (frames : Frames State) (race : ℕ → Option ℕ)
    (alloc_vmar : Paging × State → Option ℕ × (Paging × State))
    (free_vmar : ℕ → Paging × State → Paging × State) where
  take_mapping-ready :
      (x : ℕ) (s : Store)
      → IsReady (s x)
      → take_mapping tree (some x) s ≡ ok (some x, update s x (pinned (s x)))
  unfolding mutex_lock
  take_mapping-ready x s r = rw (r.mapping, r.unlocked, mutex_lock) refl

  put-shared :
      (x : ℕ) (s : Store) (w : Paging × State)
      → 2 ≤ (s x).ref_count
      → vmar_put tree (virt tree frames race alloc_vmar free_vmar) x (s, w)
        ≡ ok (update s x (record (s x) { ref_count = sub_u64 (s x).ref_count 1 }), w)
  unfolding vmar_put
  put-shared x s w h = ground arith

  -- With the lock free again, and then with a reference less.
  abbrev unlocked_at : (x : ℕ) → Store → Store
  unlocked_at x s = update s x (record (s x) { page_table_lock = 0 })

  abbrev put_at : (x : ℕ) → Store → Store
  put_at x s = update s x (record (s x) { ref_count = sub_u64 (s x).ref_count 1 })

  release-held :
      (x : ℕ) (s : Store) (w : Paging × State)
      → (s x).page_table_lock ≡ 1
      → 2 ≤ (s x).ref_count
      → release tree frames race alloc_vmar free_vmar x (success, s, w)
        ≡ ok (success, put_at x (unlocked_at x s), w)
  unfolding release mutex_unlock
  release-held x s w l c =
      let kept = ap (λ v. v.ref_count) (update_self s x (record (s x) { page_table_lock = 0 })) in
      rw (release, l, mutex_unlock, put-shared x (unlocked_at x s) w (omega arith)) refl

  put-unlocked :
      (x : ℕ) (s : Store)
      → IsReady (s x)
      → (y : ℕ) → put_at x (unlocked_at x (update s x (pinned (s x)))) y ≡ s y
  put-unlocked x s r y =
      let t = update s x (pinned (s x)) in
      let bounded = r.bounded in
      elim (update-cases (unlocked_at x t) x
        (record (unlocked_at x t x) { ref_count = sub_u64 (unlocked_at x t x).ref_count 1 }) y) [
          | inl (e, here) ↦
              here
              ∙ ap {A = Vmar} (λ v. record v { ref_count = sub_u64 v.ref_count 1 })
                  (update_self t x (record (t x) { page_table_lock = 0 })
                    ∙ ap {A = Vmar} (λ v. record v { page_table_lock = 0 })
                        (update_self s x (pinned (s x))))
              ∙ restored (s x) (sub_u64 (add_u64 (s x).ref_count 1) 1) 0 (ground arith)
                  (sym r.unlocked)
              ∙ ap s e
          | inr (n, kept) ↦ kept ∙ update_ne t x y _ n ∙ update_ne s x y _ n
        ]

  -- What the handler leaves for a fault that it resolves: success, the vmars as they were, the page
  -- mapped for one reserved page at most, and the entries that were present.
  module _ (reserved : State → ℕ) where
    unfoldable pub Resolved :
        (address : ℕ) → Store → Paging → State → Err × Store × (Paging × State) → Type 0
    Resolved address s p m (err, s', (p', m')) =
        (err ≡ success)
        × ((y : ℕ) → s' y ≡ s y)
        × Grows p p'
        × (reserved m ≤ reserved m' + 1)
        × IsMapped p' (page_at address 0)

    module _ (base : ℕ) where
      fill-Resolved :
          (x address : ℕ) (s : Store) (p : Paging) (m : State) (r : Run (Paging × State))
          → IsReady (s x)
          → Returns (Populated frames race base reserved 1 address 0 p m) r
          → Returns (Resolved address s p m) (
              r >>= λ filled.
              release tree frames race alloc_vmar free_vmar x
                (success, update s x (pinned (s x)), filled))
      unfolding Populated Resolved
      fill-Resolved x address s p m halt ready f = f
      fill-Resolved x address s p m (ok w) ready (g, c, (here, _)) =
          let e = update_self s x (pinned (s x)) in
          let held = ready.held in
          let bounded = ready.bounded in
          let count : 2 ≤ (update s x (pinned (s x)) x).ref_count =
            ground (arith, ap (λ v. v.ref_count) e) in
          rw (release-held x (update s x (pinned (s x))) w (ap (λ v. v.page_table_lock) e) count)
            (refl, put-unlocked x s ready, g, c, here)

      -- A fault with valid flags, neither of protection nor of a fetch, in a linked mapping whose tables
      -- are there, with an allocator that hands out a reserved page, is resolved: the handler returns success, the page is
      -- mapped, for one reserved page at most, the vmars are as they were, the mapping's lock and
      -- references among them, and an entry that was present keeps its value.
      pub virt_page_fault_handler-Resolved :
          (levels user_region kernel_region address error_code x : ℕ) (s : Store) (p : Paging)
          (m : State)
          → is_valid error_code ≡ true
          → is_protection error_code ≡ false
          → is_fetch error_code ≡ false
          → vmar_find_leaf tree levels
              (if is_user error_code || ltb address (s kernel_region).base
                then user_region
                else kernel_region)
              address
              s
            ≡ ok (some x)
          → IsReady (s x)
          → p.direct_base ≡ base
          → Supplies frames race base reserved 1 m
          → AllReach p 1 address 0
          → Returns (Resolved address s p m) (
              virt_page_fault_handler tree frames race alloc_vmar free_vmar levels user_region
                kernel_region address error_code s
                (p, m))
      unfolding virt_page_fault_handler vmar_find_mapping handle_mapping
      virt_page_fault_handler-Resolved levels user_region kernel_region address error_code x s p m
            valid protected fetched found ready b c all =
          rw
            (
              virt_page_fault_handler,
              valid,
              vmar_find_mapping,
              found,
              take_mapping-ready x s ready,
              handle_mapping,
              protected,
              fetched,
            )
            (fill-Resolved x address s p m _ ready
              (virt_populate-Populated frames race base reserved address 1 _ p m b c all))
