-- ===== src/Stdlib/Bufio.antt =====
-- Package bufio: a Reader over a stream whose remaining bytes are known, and ReadSlice.
use adcl.Prelude.{
  ℕ, zero, suc, ◌+◌, ◌-◌, ◌<◌, ◌≤◌, ◌≡◌, refl, ap, ◌∙◌, sym, Option, none, some, [], ◌∷◌, ◌++◌,
  Bytes, arith, true, if◌then◌else◌, leb, length, take, drop, take-append-drop, Bool-cases, inl,
  inr, Error, buffer_full, append_assoc, append-nil, take_append_add, drop_append_add,
  length-append, length-take,
}
use adcl.Stdlib.Strings.{
  index_byte, Lacks, index_byte-append, index_byte-none, nowhere, behind, first_byte,
}

-- `size` is the length of the buffer, `input` what the source has still to give (the bytes that
-- are buffered already included), `end_error` what the source reports after its last byte.
pub record Reader : Type 0 where
  pub size : ℕ
  pub input : Bytes
  pub end_error : Error

-- What ReadSlice returns: the bytes, and the error beside them (`none` is nil).
abbrev pub Slice : Type 0
Slice = Bytes × Option Error

-- ReadSlice: through the first delimiter if the buffer can hold it; a full buffer with
-- ErrBufferFull; or what is left with the error of the source.
unfoldable pub read_slice : ℕ → Reader → Slice × Reader
read_slice d r = elim (index_byte d (take r.size r.input)) [
  | some i ↦ ((take (suc i) r.input, none), record r { input = drop (suc i) r.input })
  | none ↦
      if leb r.size (length r.input)
      then ((take r.size r.input, some buffer_full), record r { input = drop r.size r.input })
      else ((r.input, some r.end_error), record r { input = [] })
]

Lacks-take : (b n : ℕ) (s : Bytes) → Lacks b s → Lacks b (take n s)
Lacks-take b zero s h = tt
Lacks-take b (suc n) [] h = tt
Lacks-take b (suc n) (c ∷ cs) (h, hs) = (h, Lacks-take b n cs hs)

pub Lacks-drop : (b n : ℕ) (s : Bytes) → Lacks b s → Lacks b (drop n s)
Lacks-drop b zero s h = h
Lacks-drop b (suc n) [] h = tt
Lacks-drop b (suc n) (c ∷ cs) (h, hs) = Lacks-drop b n cs hs

pub take_before : (n : ℕ) (xs ys : Bytes) → n ≤ length xs → take n (xs ++ ys) ≡ take n xs
take_before zero xs ys h = refl
take_before (suc n) [] ys h = absurd (omega arith)
take_before (suc n) (x ∷ xs) ys h = ap (◌∷◌ x) (take_before n xs ys (omega arith))

pub drop_before : (n : ℕ) (xs ys : Bytes) → n ≤ length xs → drop n (xs ++ ys) ≡ drop n xs ++ ys
drop_before zero xs ys h = refl
drop_before (suc n) [] ys h = absurd (omega arith)
drop_before (suc n) (x ∷ xs) ys h = drop_before n xs ys (omega arith)

take_beyond : (n : ℕ) (xs : Bytes) → length xs ≤ n → take n xs ≡ xs
take_beyond zero [] h = refl
take_beyond zero (x ∷ xs) h = absurd (omega arith)
take_beyond (suc n) [] h = refl
take_beyond (suc n) (x ∷ xs) h = ap (◌∷◌ x) (take_beyond n xs (omega arith))

module _ (d size : ℕ) (stop : Error) where
  -- The reader with what is left of its source.
  abbrev pub reader : Bytes → Reader
  reader s = record { size = size; input = s; end_error = stop }

  -- A delimiter that the buffer can hold ends the slice.
  pub read_slice_found :
      (w rest : Bytes)
      → Lacks d w
      → length w < size
      → read_slice d (reader (w ++ (d ∷ rest))) ≡ ((w ++ (d ∷ []), none), reader rest)
  unfolding read_slice index_byte
  read_slice_found w rest h short = rw (
    take_append_add size (suc (size - suc (length w))) w (d ∷ rest) (omega arith),
    index_byte-append d w (take (size - suc (length w)) rest) h,
    take_append_add (suc (length w)) 1 w (d ∷ rest) (omega arith),
    drop_append_add (suc (length w)) 1 w (d ∷ rest) (omega arith),
  )

  -- A longer line fills the buffer.
  pub read_slice_full :
      (w rest : Bytes)
      → Lacks d w
      → size ≤ length w
      → read_slice d (reader (w ++ rest))
        ≡ ((take size w, some buffer_full), reader (drop size w ++ rest))
  unfolding read_slice index_byte
  read_slice_full w rest h long =
      rw
        (
          take_before size w rest long,
          index_byte-none d (take size w) (Lacks-take d size w h),
          drop_before size w rest long,
          length-append w rest,
          leb_true,
        )
        (ap (λ x. ((x, some buffer_full), reader (drop size w ++ rest)))
          (take_before size w rest long))
    where
      leb_true : leb size (length w + length rest) ≡ true
      leb_true = ground arith

  -- Without a delimiter, what is left comes with the error of the source.
  pub read_slice_end :
      (w : Bytes)
      → Lacks d w
      → length w < size
      → read_slice d (reader w) ≡ ((w, some stop), reader [])
  unfolding read_slice index_byte
  read_slice_end w h short =
      rw (take_beyond size w (omega arith), index_byte-none d w h) (ground arith)

  -- What ReadSlice can give: the first line, a full buffer, or the rest.
  pub data Sliced : Bytes → Type 0 where
    found :
        {s : Bytes} (w rest : Bytes)
        → Lacks d w
        → length w < size
        → s ≡ w ++ (d ∷ rest)
        → read_slice d (reader s) ≡ ((w ++ (d ∷ []), none), reader rest)
        → Sliced s
    full :
        {s : Bytes} (w rest : Bytes)
        → Lacks d w
        → length w ≡ size
        → s ≡ w ++ rest
        → read_slice d (reader s) ≡ ((w, some buffer_full), reader rest)
        → Sliced s
    ended :
        {s : Bytes}
        → Lacks d s
        → length s < size
        → read_slice d (reader s) ≡ ((s, some stop), reader [])
        → Sliced s

  Sliced-full :
      (w rest : Bytes) {s : Bytes} → s ≡ w ++ rest → Lacks d w → size ≤ length w → Sliced s
  Sliced-full w rest {s} e h long =
      full (take size w) (drop size w ++ rest) (Lacks-take d size w h)
        (length-take size w ∙ omega arith)
        (e
          ∙ ap (λ x. x ++ rest) (sym (take-append-drop size w))
          ∙ append_assoc (take size w) (drop size w) rest)
        (ap (λ x. read_slice d (reader x)) e ∙ read_slice_full w rest h long)

  pub read_slice-cases : (s : Bytes) → Sliced s
  read_slice-cases s = elim (first_byte d s) [
    | nowhere h ↦ elim (Bool-cases (leb size (length s))) [
      | inl long ↦ Sliced-full s [] (sym (append-nil s)) h (ground arith)
      | inr short ↦ ended h (ground arith) (read_slice_end s h (ground arith))
    ]
    | behind w rest h e ↦ elim (Bool-cases (leb size (length w))) [
      | inl long ↦ Sliced-full w (d ∷ rest) e h (ground arith)
      | inr short ↦
          found w rest h (ground arith) e
            (ap (λ x. read_slice d (reader x)) e ∙ read_slice_found w rest h (ground arith))
    ]
  ]
