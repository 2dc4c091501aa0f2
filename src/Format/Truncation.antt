-- ===== src/Format/Truncation.antt =====
-- src/lib/snprintf.c: what `kvsnprintf` leaves in a buffer is the whole text, cut to the buffer.
use native.Mathlib.Decide.{dec_lt}
use tomato.Base.{
  subst, ℕ, zero, suc, ◌+◌, ◌-◌, ◌%◌, ◌<◌, ◌≡◌, refl, sym, ap, ◌∙◌, true, false, List, [], ◌∷◌,
  ◌++◌, Option, none, some, ltb, ◌==◌, if◌then◌else◌, length, take, replicate, min, u64_mod,
  length-append, length-replicate, take-append, take-replicate, take-min, take_all, set-take,
  Bool-cases, Option-cases, ltb-false, lt→ltb, inl, inr, arith,
}
use tomato.Format.{
  Arg, Mode, literal, escape, fresh, Spec, scan, read_spec, convert, flush, queue, Out, flush_str,
  terminate, kvsnprintf,
}

-- A flush with all the room it needs.
abbrev pub append_all : (pad width : ℕ) → List ℕ → List ℕ → List ℕ
append_all pad width str full = full ++ (replicate (width - length str) pad ++ str)

-- The whole text of a format, or `none` if an argument is missing.
unfoldable pub render : List ℕ → List Arg → Option (List ℕ)
render fmt args = scan append_all fmt (literal []) args []

-- The output holds the part of the text that fits, and has counted all of it.
record Holds (size : ℕ) (full : List ℕ) (o : Out) : Type 0 where
  bytes : o.bytes ≡ take size full
  n : o.n ≡ size - length full
  written : o.written ≡ length full % u64_mod

-- The first `m` bytes of a padded text.
take-padded :
    (m k pad : ℕ) (str : List ℕ)
    → take m (replicate k pad ++ str)
      ≡ replicate (min m k) pad ++ take (min (m - k) (length str)) str
take-padded m k pad str = rw (
  take-append m (replicate k pad) str,
  take-replicate m k pad,
  length-replicate k pad,
  take-min (m - k) str,
)

-- The comparisons of the code are a truncated subtraction and minima.
clamped_sub : (a b : ℕ) → (if ltb a b then b - a else 0) ≡ b - a
clamped_sub a b = ground arith

clamped_min : (a b : ℕ) → (if ltb a b then a else b) ≡ min b a
clamped_min a b = ground arith

sub_min : (a b : ℕ) → a - min a b ≡ a - b
sub_min a b = omega arith

flush_str-Holds :
    (size pad width : ℕ) (str full : List ℕ) (o : Out)
    → Holds size full o
    → Holds size (append_all pad width str full) (flush_str pad width str o)
unfolding flush_str
flush_str-Holds size pad width str full o h =
    let len = length str in
    let k = width - len in
    let room = o.n - min o.n k in
    let whole : length (append_all pad width str full) ≡ length full + (k + len) =
      length-append full (replicate k pad ++ str)
      ∙ ap (λ j. length full + j)
          (length-append (replicate k pad) str ∙ ap (λ j. j + len) (length-replicate k pad)) in
    rw (clamped_sub len width, clamped_min k o.n, clamped_min len room)
      (record {
        bytes = rw (
          take-append size full (replicate k pad ++ str),
          ← h.n,
          take-padded o.n k pad str,
          h.bytes,
          sub_min o.n k,
        );
        n = rw whole (omega (arith, h.n));
        written = rw whole (omega (arith, h.written));
      })

-- The steps of `scan`, by what the next byte is.
module _ {S : Type 0} (emit : (pad width : ℕ) → List ℕ → S → S) (c : ℕ) (cs : List ℕ)
    (args : List Arg) (s : S) where
  scan-percent :
      (pending : List ℕ)
      → (c == b'%') ≡ true
      → scan emit (c ∷ cs) (literal pending) args s
        ≡ scan emit cs (escape fresh) args (emit b' ' 0 pending s)
  unfolding scan
  scan-percent pending e = rw (e, scan)

  scan-byte :
      (pending : List ℕ)
      → (c == b'%') ≡ false
      → scan emit (c ∷ cs) (literal pending) args s
        ≡ scan emit cs (literal (pending ++ (c ∷ []))) args s
  unfolding scan
  scan-byte pending e = rw (e, scan)

  scan-spec :
      (sp : Spec) {sp' : Spec}
      → read_spec sp c ≡ some sp'
      → scan emit (c ∷ cs) (escape sp) args s ≡ scan emit cs (escape sp') args s
  unfolding scan
  scan-spec sp e = rw (e, scan)

  scan-missing :
      (sp : Spec)
      → read_spec sp c ≡ none
      → convert sp c args ≡ none
      → scan emit (c ∷ cs) (escape sp) args s ≡ none
  unfolding scan
  scan-missing sp e f = rw (e, f, scan)

  scan-flush :
      (sp : Spec) {pad width : ℕ} {str : List ℕ} {rest : List Arg}
      → read_spec sp c ≡ none
      → convert sp c args ≡ some (flush pad width str rest)
      → scan emit (c ∷ cs) (escape sp) args s
        ≡ scan emit cs (literal []) rest (emit pad width str s)
  unfolding scan
  scan-flush sp e f = rw (e, f, scan)

  scan-queue :
      (sp : Spec) {pending : List ℕ}
      → read_spec sp c ≡ none
      → convert sp c args ≡ some (queue pending)
      → scan emit (c ∷ cs) (escape sp) args s ≡ scan emit cs (literal pending) args s
  unfolding scan
  scan-queue sp e f = rw (e, f, scan)

-- Two readings of one format, over related states.
module _ {S T : Type 0} (Rel : S → T → Type 0) where
  abbrev Both : Option S → Option T → Type 0
  Both none none = Unit
  Both (some s) (some t) = Rel s t
  Both _ _ = ⊥

  module _ (emit : (pad width : ℕ) → List ℕ → S → S) (emit' : (pad width : ℕ) → List ℕ → T → T)
      (keeps : (pad width : ℕ) (str : List ℕ) (s : S) (t : T)
        → Rel s t
        → Rel (emit pad width str s) (emit' pad width str t)) where
    scan-Both :
        (fmt : List ℕ) (m : Mode) (args : List Arg) (s : S) (t : T)
        → Rel s t
        → Both (scan emit fmt m args s) (scan emit' fmt m args t)
    unfolding scan
    scan-Both [] (literal pending) args s t h = keeps _ _ _ _ _ h
    scan-Both [] (escape sp) args s t h = keeps _ _ _ _ _ h
    scan-Both (c ∷ cs) (literal pending) args s t h = elim (Bool-cases (c == b'%')) [
      | inl e ↦
          rw (scan-percent emit c cs args s pending e, scan-percent emit' c cs args t pending e)
            (scan-Both cs (escape fresh) args _ _ (keeps b' ' 0 pending s t h))
      | inr e ↦
          rw (scan-byte emit c cs args s pending e, scan-byte emit' c cs args t pending e)
            (scan-Both cs (literal (pending ++ (c ∷ []))) args s t h)
    ]
    scan-Both (c ∷ cs) (escape sp) args s t h = elim (Option-cases (read_spec sp c)) [
      | inr (sp', e) ↦
          rw (scan-spec emit c cs args s sp e, scan-spec emit' c cs args t sp e)
            (scan-Both cs (escape sp') args s t h)
      | inl e ↦ elim (Option-cases (convert sp c args)) [
        | inl none_there ↦
            rw
              (
                scan-missing emit c cs args s sp e none_there,
                scan-missing emit' c cs args t sp e none_there,
              )
              tt
        | inr (flush pad width str rest, act) ↦
            rw (scan-flush emit c cs args s sp e act, scan-flush emit' c cs args t sp e act)
              (scan-Both cs (literal []) rest _ _ (keeps pad width str s t h))
        | inr (queue pending, act) ↦
            rw (scan-queue emit c cs args s sp e act, scan-queue emit' c cs args t sp e act)
              (scan-Both cs (literal pending) args s t h)
      ]
    ]

terminate-Holds :
    (size : ℕ) (full : List ℕ) (o : Out)
    → Holds size full o
    → length full < u64_mod
    → terminate size o ≡ (if size == 0 then [] else take (size - 1) full ++ (0 ∷ []))
unfolding terminate
terminate-Holds zero full o h small = h.bytes
terminate-Holds (suc k) full o h small =
    let positive : (suc k == 0) ≡ false = ground arith in
    elim (dec_lt (length full) (suc k)) [
      | yes fits ↦
          let inside : ltb o.written (suc k) ≡ true = lt→ltb _ _ (omega (arith, h.written)) in
          rw (positive, inside)
            (ap (λ l. l ++ (0 ∷ []))
              (h.bytes
                ∙ take_all (suc k) full (omega arith)
                ∙ sym (take_all (suc k - 1) full (omega arith))))
      | no cut ↦
          let over : ltb o.written (suc k) ≡ false = ltb-false _ _ (omega (arith, h.written)) in
          let down : suc k - 1 ≡ k = omega arith in
          rw (positive, over, down, h.bytes) (set-take k full 0 (omega arith))
    ]

Both-some :
    (size : ℕ) (full : List ℕ) (b : Option Out)
    → Both (Holds size) (some full) b
    → (o : Out) × (b ≡ some o) × Holds size full o
Both-some size full none h = absurd h
Both-some size full (some o) h = (o, refl, h)

Holds-start : (size : ℕ) → Holds size [] (record { bytes = []; n = size; written = 0 })
Holds-start size = record {
  bytes = sym (take_all size [] (omega arith));
  n = omega arith;
  written = refl;
}

-- For a format that the conversions of the model cover, with a text shorter than 2 ^ 64 bytes:
-- `kvsnprintf` writes nothing into an empty buffer. Otherwise it leaves as much of the whole text as
-- fits beside the null byte, and the null byte: always terminated, and never out of bounds.
pub kvsnprintf-render :
    (size : ℕ) (fmt : List ℕ) (args : List Arg) {full : List ℕ}
    → render fmt args ≡ some full
    → length full < u64_mod
    → kvsnprintf size fmt args ≡ some (if size == 0 then [] else take (size - 1) full ++ (0 ∷ []))
unfolding kvsnprintf render
kvsnprintf-render size fmt args {full} e small =
    let (o, run, h) = Both-some size full _ (
      subst
        (λ x.
          Both (Holds size) x
            (scan flush_str fmt (literal []) args (record { bytes = []; n = size; written = 0 })))
        e
        (scan-Both (Holds size) append_all flush_str
          (λ pad width str l o h. flush_str-Holds size pad width str l o h) fmt (literal []) args []
          _ (Holds-start size))) in
    rw (run, kvsnprintf, terminate-Holds size full o h small)
