-- ===== src/Buffer/Inv.antt =====
-- The indices of a buffer stay in order and in range, and no `size_t` operation wraps.
use cluster_chat_server.Prelude.{
  ℕ, ◌+◌, ◌^◌, ◌-◌, ◌%◌, ◌≤◌, ◌<◌, ◌≡◌, refl, arith, length, take, drop, overwrite, replicate,
  length-append, length-take, length-drop, length-replicate, length-overwrite, take-all,
  take-append, drop-append, take-overwrite, drop-overwrite, size_add, size_sub, ap, ◌∙◌, Bool-cases,
  inl, inr, ltb, ltb→lt,
}
use cluster_chat_server.Prelude.Text.{Bytes}
use cluster_chat_server.Buffer.{
  Buffer, cheap_prepend, readable_bytes, writable_bytes, peek, make_space, resize,
  prependable_bytes, ensure_writeable_bytes,
}

pub record IsValid (b : Buffer) : Type 0 where
  pub header : cheap_prepend ≤ b.reader_index
  pub ordered : b.reader_index ≤ b.writer_index
  pub within : b.writer_index ≤ length b.buffer
  pub small : length b.buffer < 2 ^ 63

-- The bytes from the read position to the write position: what a reader has still to see.
abbrev pub contents : Buffer → Bytes
contents b = take (b.writer_index - b.reader_index) (drop b.reader_index b.buffer)

pub sizes :
    {b : Buffer}
    → IsValid b
    → (readable_bytes b ≡ b.writer_index - b.reader_index)
      × (writable_bytes b ≡ length b.buffer - b.writer_index)
unfolding readable_bytes writable_bytes
sizes v = omega arith

pub length-contents :
    {b : Buffer} → IsValid b → length (contents b) ≡ b.writer_index - b.reader_index
length-contents {b} v = omega (
  arith,
  length-take (b.writer_index - b.reader_index) (drop b.reader_index b.buffer),
  length-drop b.reader_index b.buffer,
)

pub contents-sizes : {b : Buffer} → IsValid b → peek b (readable_bytes b) ≡ contents b
unfolding peek
contents-sizes {b} v = ap (λ n. take n (drop b.reader_index b.buffer)) (sizes v).0

-- What making room for `len` bytes promises.
pub record HasRoom (b : Buffer) (len : ℕ) (c : Buffer) : Type 0 where
  pub valid : IsValid c
  pub same : contents c ≡ contents b
  pub free : len ≤ length c.buffer - c.writer_index
  pub bounded : length c.buffer ≤ length b.buffer + len

length-resize : (xs : Bytes) (n : ℕ) → length xs ≤ n → n < 2 ^ 64 → length (resize xs n) ≡ n
unfolding resize
length-resize xs n h small = omega (
  arith,
  length-append (take n xs) (replicate (size_sub n (length xs)) 0),
  length-take n xs,
  length-replicate {A = ℕ} (size_sub n (length xs)) 0,
)

slice-resize :
    (xs : Bytes) (r k n : ℕ)
    → r + k ≤ length xs
    → length xs ≤ n
    → take k (drop r (resize xs n)) ≡ take k (drop r xs)
unfolding resize
slice-resize xs r k n h grow =
    rw (take-all n xs grow, drop-append r xs _ (omega arith))
      (take-append k (drop r xs) _ (omega (arith, length-drop r xs)))

module _ {b : Buffer} (len : ℕ) (v : IsValid b) (room : length b.buffer + len < 2 ^ 63) where
  open b use {buffer, reader_index as r, writer_index as w}

  grown-HasRoom :
      length buffer ≤ w + len → HasRoom b len (record b { buffer = resize buffer (size_add w len) })
  grown-HasRoom more =
      let sum : size_add w len ≡ w + len = omega arith in
      let size : length (resize buffer (w + len)) ≡ w + len =
        length-resize buffer (w + len) more (omega arith) in
      rw sum (record {
        valid = omega (arith, size);
        same = slice-resize buffer r (w - r) (w + len) (omega arith) more;
        free = omega (arith, size);
        bounded = omega (arith, size);
      })

  moved : Buffer
  moved = record {
    buffer = overwrite buffer cheap_prepend (contents b);
    reader_index = cheap_prepend;
    writer_index = cheap_prepend + (w - r);
  }

  moved-HasRoom : len + cheap_prepend ≤ length buffer - w + r → HasRoom b len moved
  unfolding moved
  moved-HasRoom fits =
      let size = length-overwrite buffer cheap_prepend (contents b) in
      let count = length-contents v in
      record {
        valid = omega (arith, size);
        same =
            ap (take (8 + (w - r) - 8)) (drop-overwrite 8 0 8 buffer (contents b) refl)
            ∙ take-overwrite 0 (8 + (w - r) - 8) (drop 8 buffer) (contents b) (omega arith)
                (omega (arith, length-drop 8 buffer));
        free = omega (arith, size);
        bounded = omega (arith, size);
      }

  -- `makeSpace`, on both branches.
  make_space-HasRoom : length buffer - w < len → HasRoom b len (make_space b len)
  unfolding make_space prependable_bytes
  make_space-HasRoom full =
      rw ((sizes v).1, contents-sizes v, (sizes v).0)
        (elim (Bool-cases (ltb (size_add (length buffer - w) r) (size_add len cheap_prepend))) [
          | inl e ↦ rw e (grown-HasRoom (omega arith))
          | inr e ↦
              let sum : (cheap_prepend + (w - r)) % 2 ^ 64 ≡ cheap_prepend + (w - r) =
                omega arith in
              rw (e, sum) (unfold moved in moved-HasRoom (ground arith))
        ])

  pub ensure_writeable_bytes-HasRoom : HasRoom b len (ensure_writeable_bytes b len)
  unfolding ensure_writeable_bytes
  ensure_writeable_bytes-HasRoom = elim (Bool-cases (ltb (length buffer - w) len)) [
    | inl e ↦ rw ((sizes v).1, e) (make_space-HasRoom (ltb→lt _ _ e))
    | inr e ↦
        rw ((sizes v).1, e)
          (record { valid = v; same = refl; free = ground arith; bounded = omega arith })
  ]
