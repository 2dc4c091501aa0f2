-- ===== src/Mem/Vmar/Dump.antt =====
-- src/mem/vmar.c: the dump of a tree of vmars, with the buffer that its guide lines are drawn in. A write past
-- the end of the buffer halts the run. The names of the vmars are left out. `levels` bounds the depth of
-- the tree.
pub mod Prefix
use tomato.Base.{
  ℕ, zero, suc, ◌+◌, ◌-◌, ◌*◌, ◌%◌, ◌==◌, ltb, Bool, true, false, ◌&&◌, List, [], ◌∷◌, ◌++◌, Run,
  ok, halt, ◌>>=◌, ◌>>◌, assert, if◌then◌else◌, update, length, u64_mod, add_u64, sub_u64,
}
use tomato.Mem.Vmar.{Kind, Vmar, Store, vmar_first_page, vmar_tail_gap}

-- `DUMP_PREFIX_SIZE`, 32 indents of 6 bytes and the null byte
abbrev pub dump_prefix_size : ℕ
dump_prefix_size = 193

-- `dump_glyphs_t`, as bytes of UTF-8
pub record DumpGlyphs : Type 0 where
  pub branch : List ℕ
  pub indent : List ℕ

abbrev pub m_dump_glyphs : DumpGlyphs
m_dump_glyphs = record {
  branch = 226 ∷ 148 ∷ 156 ∷ 226 ∷ 148 ∷ 128 ∷ 226 ∷ 148 ∷ 128 ∷ 32 ∷ [];
  indent = 226 ∷ 148 ∷ 130 ∷ 32 ∷ 32 ∷ 32 ∷ [];
}

abbrev pub m_dump_glyphs_last : DumpGlyphs
m_dump_glyphs_last = record {
  branch = 226 ∷ 148 ∷ 148 ∷ 226 ∷ 148 ∷ 128 ∷ 226 ∷ 148 ∷ 128 ∷ 32 ∷ [];
  indent = 32 ∷ 32 ∷ 32 ∷ 32 ∷ [];
}

-- The bytes of the buffer by their index.
abbrev pub Prefix : Type 0
Prefix = ℕ → ℕ

-- `memcpy` into the buffer
unfoldable pub copy_to : (i : ℕ) → List ℕ → Prefix → Run Prefix
copy_to i [] prefix = ok prefix
copy_to i (b ∷ bs) prefix =
    assert (ltb i dump_prefix_size) >> copy_to (i + 1) bs (update prefix i b)

-- The text in the buffer, up to its null byte.
unfoldable pub text_from : (fuel i : ℕ) → Prefix → List ℕ
text_from zero i prefix = []
text_from (suc fuel) i prefix =
    let rest = text_from fuel (i + 1) prefix in if prefix i == 0 then [] else prefix i ∷ rest

abbrev pub text_of : Prefix → List ℕ
text_of prefix = text_from dump_prefix_size 0 prefix

-- The lines of `vmar_dump_line` and `vmar_dump_gap`: the guide lines, the branch and the range.
pub data Line : Type 0 where
  vmar_line : (prefix branch : List ℕ) (base last : ℕ) → Kind → Line
  gap_line : (prefix branch : List ℕ) (start last page_count : ℕ) → Line

unfoldable pub vmar_dump_line : Vmar → (prefix branch : List ℕ) → Line
vmar_dump_line vmar prefix branch =
    vmar_line prefix branch vmar.base
      (add_u64 vmar.base (sub_u64 (vmar.page_count * 4096 % u64_mod) 1)) vmar.kind

unfoldable pub vmar_dump_gap : (first_page page_count : ℕ) → (prefix branch : List ℕ) → Line
vmar_dump_gap first_page page_count prefix branch =
    let start = first_page * 4096 % u64_mod in
    gap_line prefix branch start (add_u64 start (sub_u64 (page_count * 4096 % u64_mod) 1))
      page_count

abbrev pub gap_before : Vmar → Prefix → List Line
gap_before child prefix =
    if child.gap == 0
    then []
    else vmar_dump_gap (sub_u64 (vmar_first_page child) child.gap) child.gap (text_of prefix)
        m_dump_glyphs.branch
      ∷ []

abbrev pub is_empty : List ℕ → Bool
is_empty [] = true
is_empty (_ ∷ _) = false

abbrev pub glyphs_of : (last : Bool) → DumpGlyphs
glyphs_of last = if last then m_dump_glyphs_last else m_dump_glyphs

abbrev pub Dump : Type 0
Dump = (x : ℕ) (prefix : Prefix) (prefix_len : ℕ) → Run (List Line × Prefix)

-- The end of the text is put back after the descent.
abbrev pub cut_at : (prefix_len : ℕ) → List Line × Prefix → Run (List Line × Prefix)
cut_at prefix_len (lines, drawn) =
    copy_to prefix_len (0 ∷ []) drawn >>= λ restored. ok (lines, restored)

-- The descent into a child of a node: further to the right where there is room, and flat where not.
unfoldable pub descend :
    Dump → (child : ℕ) → DumpGlyphs → Prefix → (prefix_len : ℕ) → Run (List Line × Prefix)
descend dump child glyphs prefix prefix_len =
    let child_len = prefix_len + length glyphs.indent in
    elim (ltb child_len dump_prefix_size) [
      | true ↦
          copy_to prefix_len (glyphs.indent ++ 0 ∷ []) prefix
          >>= (λ extended. dump child extended child_len >>= λ drawn. cut_at prefix_len drawn)
      | false ↦ dump child prefix prefix_len
    ]

-- The loop over the siblings.
unfoldable pub dump_siblings :
    Dump → Store → (tail_gap : ℕ) → List ℕ → Prefix → (prefix_len : ℕ) → Run (List Line × Prefix)
dump_siblings dump s tail_gap [] prefix prefix_len = ok ([], prefix)
dump_siblings dump s tail_gap (child ∷ rest) prefix prefix_len =
    let glyphs = glyphs_of (is_empty rest && tail_gap == 0) in
    let line = vmar_dump_line (s child) (text_of prefix) glyphs.branch in
    descend dump child glyphs prefix prefix_len >>= λ (below, drawn).
    dump_siblings dump s tail_gap rest drawn prefix_len >>= λ (others, done).
    ok (gap_before (s child) prefix ++ line ∷ (below ++ others), done)

abbrev pub tail_lines : (tail_gap tail_page : ℕ) → Prefix → List Line
tail_lines tail_gap tail_page prefix =
    if tail_gap == 0
    then []
    else vmar_dump_gap tail_page tail_gap (text_of prefix) m_dump_glyphs_last.branch ∷ []

-- The children of a region; no other vmar has any.
abbrev pub dump_kind :
    Dump → Store → Kind → (x : ℕ) → Prefix → (prefix_len : ℕ) → Run (List Line × Prefix)
dump_kind dump s Kind.region x prefix prefix_len =
    let (tail_gap, tail_page) = vmar_tail_gap x s in
    dump_siblings dump s tail_gap (s x).children prefix prefix_len >>= λ (lines, drawn).
    ok (lines ++ tail_lines tail_gap tail_page drawn, drawn)
dump_kind dump s kind x prefix prefix_len = ok ([], prefix)

unfoldable pub vmar_dump_children : (levels : ℕ) → Store → Dump
vmar_dump_children zero s x prefix prefix_len = halt
vmar_dump_children (suc levels) s x prefix prefix_len =
    dump_kind (vmar_dump_children levels s) s (s x).kind x prefix prefix_len

unfoldable pub vmar_dump : (levels root : ℕ) → Store → Run (List Line)
vmar_dump levels root s = vmar_dump_children levels s root (λ _. 0) 0 >>= λ (lines, drawn).
    ok (vmar_dump_line (s root) [] [] ∷ lines)
