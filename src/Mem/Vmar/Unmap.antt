-- ===== src/Mem/Vmar/Unmap.antt =====
-- src/mem/vmar.c: the operations that walk down a tree of vmars, to lock it or to unmap it, and the
-- references of a vmar. `levels` bounds the depth of the tree.
use tomato.Base.{
  ℕ, suc, zero, ◌==◌, leb, true, false, not, none, some, List, [], ◌∷◌, Run, ok, halt, ◌>>=◌, ◌>>◌,
  assert, if◌then◌else◌, update, sub_u64,
}
use tomato.Mem.Vmar.{Kind, Vmar, Tree, Store, is_region, next_of, gap_update_next}
use tomato.Mem.Vmar.Place.{Services}
use tomato.Sync.Locks.{mutex_lock, mutex_unlock}

module _ (tree : Tree) {State : Type 0} (services : Services State) where
  abbrev pub World : Type 0
  World = Store × State

  -- `vmar_free`, when the last reference is put
  abbrev pub vmar_free : ℕ → World → Run World
  vmar_free x (s, m) = assert (s x).unmapped >> ok (s, services.free_vmar x m)

  -- `OBJECT_PUT` of a vmar
  unfoldable pub vmar_put : ℕ → World → Run World
  vmar_put x (s, m) =
      let ref_count = (s x).ref_count in
      let released = update s x (record (s x) { ref_count = sub_u64 ref_count 1 }) in
      assert (leb 1 ref_count)
      >> (if ref_count == 1 then vmar_free x (released, m) else ok (released, m))

  -- The loop over the children, each of which `unmap` takes out of the tree.
  unfoldable pub unmap_children : (unmap : ℕ → World → Run World) → List ℕ → World → Run World
  unmap_children unmap [] w = ok w
  unmap_children unmap (child ∷ rest) w =
      assert (not (w.0 child).unmapped)
      >> assert (not (w.0 child).locked)
      >> (unmap child w >>= λ gone. vmar_put child gone >>= λ put. unmap_children unmap rest put)

  -- A special mapping cannot be unmapped.
  abbrev pub unmap_kind : (unmap : ℕ → World → Run World) → Kind → Vmar → World → Run World
  unmap_kind unmap Kind.region v w = unmap_children unmap v.children w
  unmap_kind unmap Kind.mapping v (s, m) = mutex_lock false v.page_table_lock >>= λ held.
      services.virt_free v.base v.page_count m >>= λ m'. mutex_unlock held >>= λ _. ok (s, m')
  unmap_kind unmap Kind.special v w = halt

  -- The removal from the tree of the parent, and the gap of the next sibling.
  unfoldable pub vmar_unlink : (x parent : ℕ) → Store → Run Store
  vmar_unlink x parent s =
      let next = next_of x (s parent).children in
      let erased =
        update s parent (record (s parent) { children = tree.rb_erase x (s parent).children }) in
      gap_update_next next erased >>= λ measured.
      ok (update measured x (record (measured x) { parent = none; unmapped = true }))

  unfoldable pub vmar_unmap_internal : (levels : ℕ) → ℕ → World → Run World
  vmar_unmap_internal zero x w = halt
  vmar_unmap_internal (suc levels) x w =
      assert (not (w.0 x).unmapped) >> assert (not (w.0 x).locked) >> elim (w.0 x).parent [
        | none ↦ halt
        | some parent ↦
            assert (is_region (w.0 parent).kind)
            >> (unmap_kind (vmar_unmap_internal levels) (w.0 x).kind (w.0 x) w >>= λ emptied.
                vmar_unlink x parent emptied.0 >>= λ s. ok (s, emptied.1))
      ]

  unfoldable pub vmar_unmap : (levels : ℕ) → ℕ → World → Run World
  vmar_unmap levels x w =
      if (w.0 x).unmapped then ok w else vmar_unmap_internal levels x w >>= λ gone. vmar_put x gone

  unfoldable pub lock_children : (lock : ℕ → World → Run World) → List ℕ → World → Run World
  lock_children lock [] w = ok w
  lock_children lock (child ∷ rest) w = lock child w >>= λ locked. lock_children lock rest locked

  abbrev pub lock_kind : (lock : ℕ → World → Run World) → Kind → Vmar → World → Run World
  lock_kind lock Kind.region v w = lock_children lock v.children w
  lock_kind lock Kind.mapping v (s, m) = mutex_lock false v.page_table_lock >>= λ held.
      services.virt_make_global v.base v.page_count m >>= λ m'.
      mutex_unlock held >>= λ _. ok (s, m')
  lock_kind lock Kind.special v w = ok w

  unfoldable pub vmar_lock_internal : (levels : ℕ) → ℕ → World → Run World
  vmar_lock_internal zero x w = halt
  vmar_lock_internal (suc levels) x (s, m) =
      lock_kind (vmar_lock_internal levels) (s x).kind (s x)
        (update s x (record (s x) { locked = true }), m)

  unfoldable pub vmar_lock : (levels : ℕ) → ℕ → World → Run World
  vmar_lock levels x w = assert (not (w.0 x).unmapped) >> vmar_lock_internal levels x w
