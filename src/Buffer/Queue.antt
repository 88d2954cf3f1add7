-- ===== src/Buffer/Queue.antt =====
-- The readable bytes are a first-in first-out queue: `append` and `readFd` add at the end,
-- `retrieve` takes from the front.
use cluster_chat_server.Prelude.{
  ℕ, ◌+◌, ◌^◌, ◌-◌, ◌%◌, ◌≤◌, ◌<◌, ◌≡◌, refl, [], ◌++◌, arith, length, take, drop, overwrite,
  length-take, length-drop, length-replicate, length-overwrite, take-all, drop-all, take-overwrite,
  drop-overwrite, drop-drop, drop-take, take-append-drop, size_add, ap, ◌∙◌, sym, Bool-cases, inl,
  inr, ltb, leb, leb→le,
}
use cluster_chat_server.Prelude.Text.{Bytes}
use mathlib.Core.List.{append_assoc}
use cluster_chat_server.Buffer.{
  Buffer, done, cheap_prepend, extra_size, init, readable_bytes, ensure_writeable_bytes, append,
  retrieve, retrieve_all, retrieve_all_as_string, iov_room, read_fd,
}
use cluster_chat_server.Buffer.Inv.{
  IsValid, contents, contents-sizes, sizes, length-contents, ensure_writeable_bytes-HasRoom,
}

-- Every buffer that the constructor makes for fewer than 2^62 bytes is valid and empty.
pub init-IsValid : (n : ℕ) → n < 2 ^ 62 → IsValid (init n) × (contents (init n) ≡ [])
unfolding init
init-IsValid n h =
    let size = length-replicate {A = ℕ} (size_add cheap_prepend n) 0 in
    (
      record {
        header = omega arith;
        ordered = omega arith;
        within = omega (arith, size);
        small = omega (arith, size);
      },
      refl,
    )

pub init_size : (n : ℕ) → length (init n).buffer ≡ size_add cheap_prepend n
unfolding init
init_size n = length-replicate {A = ℕ} (size_add cheap_prepend n) 0

-- Writing behind the contents of a valid buffer, within its space, extends them.
contents-write :
    (c : Buffer) (xs : Bytes) (n : ℕ)
    → IsValid c
    → n ≡ c.writer_index + length xs
    → n ≤ length c.buffer
    → take (n - c.reader_index) (drop c.reader_index (overwrite c.buffer c.writer_index xs))
      ≡ contents c ++ xs
contents-write c xs n v e h =
    let k = c.writer_index - c.reader_index in
    ap (take (n - c.reader_index))
      (drop-overwrite c.reader_index k c.writer_index c.buffer xs (omega arith))
    ∙ take-overwrite k (n - c.reader_index) (drop c.reader_index c.buffer) xs (omega arith)
        (omega (arith, length-drop c.reader_index c.buffer))

-- On a valid buffer that stays below 2^63 bytes, `append` keeps the invariant, adds exactly its bytes
-- behind the contents, and the vector grows by no more than their number.
pub append_lem :
    {b : Buffer} (xs : Bytes)
    → IsValid b
    → length b.buffer + length xs < 2 ^ 63
    → IsValid (append b xs)
      × (contents (append b xs) ≡ contents b ++ xs)
      × (length (append b xs).buffer ≤ length b.buffer + length xs)
unfolding append
append_lem {b} xs v room =
    let c = ensure_writeable_bytes b (length xs) in
    let h = ensure_writeable_bytes-HasRoom (length xs) v room in
    let size = length-overwrite c.buffer c.writer_index xs in
    let sum : size_add c.writer_index (length xs) ≡ c.writer_index + length xs = omega (arith, h) in
    rw sum (
      record {
        header = omega (arith, h);
        ordered = omega (arith, h);
        within = omega (arith, h, size);
        small = omega (arith, h, size);
      },
      contents-write c xs (c.writer_index + length xs) h.valid refl (omega (arith, h))
          ∙ ap (λ t. t ++ xs) h.same,
      omega (arith, h, size),
    )

cleared :
    {b : Buffer}
    → IsValid b
    → IsValid (record b { reader_index = cheap_prepend; writer_index = cheap_prepend })
cleared v = omega arith

-- `retrieve` keeps the invariant and drops that many bytes from the front, all of them when asked
-- for more than there are.
pub retrieve_lem :
    {b : Buffer} (n : ℕ)
    → IsValid b
    → IsValid (retrieve b n) × (contents (retrieve b n) ≡ drop n (contents b))
unfolding retrieve retrieve_all
retrieve_lem {b} n v = elim (Bool-cases (ltb n (w - r))) [
  | inl e ↦
      let sum : (r + n) % 2 ^ 64 ≡ r + n = ground arith in
      rw ((sizes v).0, e, sum)
        (
          record {
            header = omega arith;
            ordered = ground arith;
            within = v.within;
            small = v.small;
          },
          ap (take (w - (r + n))) (sym (drop-drop n r (r + n) b.buffer refl))
              ∙ sym (drop-take n (w - r) (w - (r + n)) (drop r b.buffer) (omega arith)),
        )
  | inr e ↦
      rw ((sizes v).0, e)
        (cleared v, sym (drop-all n (contents b) (ground (arith, length-contents v))))
]
  where
    open b use {reader_index as r, writer_index as w}

pub retrieve_size : (n : ℕ) (b : Buffer) → length (retrieve b n).buffer ≡ length b.buffer
unfolding retrieve retrieve_all
retrieve_size n b = ground arith

-- `retrieveAllAsString` returns the whole contents and leaves a valid empty buffer.
pub retrieve_all_as_string_lem :
    {b : Buffer}
    → IsValid b
    → ((retrieve_all_as_string b).0 ≡ contents b)
      × IsValid (retrieve_all_as_string b).1
      × (contents (retrieve_all_as_string b).1 ≡ [])
unfolding retrieve_all_as_string
retrieve_all_as_string_lem {b} v =
    let left = retrieve_lem (readable_bytes b) v in
    (
      contents-sizes v,
      left.0,
      left.1 ∙ drop-all (readable_bytes b) (contents b) (omega (arith, length-contents v, sizes v)),
    )

-- What fits the free space.
read_some :
    {b : Buffer} (xs : Bytes)
    → IsValid b
    → length xs ≤ length b.buffer - b.writer_index
    → let c = record b {
      buffer = overwrite b.buffer b.writer_index xs;
      writer_index = size_add b.writer_index (length xs);
    } in
      IsValid c × (contents c ≡ contents b ++ xs)
read_some {b} xs v fits =
    let size = length-overwrite b.buffer b.writer_index xs in
    let sum : size_add b.writer_index (length xs) ≡ b.writer_index + length xs = omega arith in
    rw sum (
      record {
        header = omega arith;
        ordered = omega arith;
        within = omega (arith, size);
        small = omega (arith, size);
      },
      contents-write b xs (b.writer_index + length xs) v refl (omega arith),
    )

iov_room-le : {b : Buffer} → IsValid b → iov_room b ≤ length b.buffer - b.writer_index + extra_size
unfolding iov_room
iov_room-le {b} v = rw (sizes v).1 (ground arith)

-- On a valid buffer that stays below 2^63 bytes, if the kernel delivers no more than `readFd` offers
-- room for, `readFd` returns how many bytes it delivered and appends exactly these, in order, through
-- the free space and then `extrabuf`; the buffer stays valid and grows by no more than their number.
pub read_fd_lem :
    {b : Buffer} (xs : Bytes)
    → IsValid b
    → length xs ≤ iov_room b
    → length b.buffer + extra_size < 2 ^ 63
    → ((read_fd b (done xs)).0 ≡ done (length xs))
      × IsValid (read_fd b (done xs)).1
      × (contents (read_fd b (done xs)).1 ≡ contents b ++ xs)
      × (length (read_fd b (done xs)).1.buffer ≤ length b.buffer + length xs)
unfolding read_fd
read_fd_lem {b} xs v fits small = elim (Bool-cases (leb (length xs) room)) [
  | inl e ↦
      let some_fit : length xs ≤ room = leb→le _ _ e in
      let front = read_some xs v some_fit in
      rw ((sizes v).1, e, take-all room xs some_fit)
        (refl, front.0, front.1, omega (arith, length-overwrite b.buffer w xs))
  | inr e ↦
      let more : room < length xs = ground arith in
      let front = read_some (take room xs) v (omega (arith, length-take room xs)) in
      let full : size_add w (length (take room xs)) ≡ length b.buffer =
        omega (arith, length-take room xs) in
      let size = length-overwrite b.buffer w (take room xs) in
      let front' = rw full at front in
      let back =
        append_lem (drop room xs) front'.0
          (omega (arith, size, length-drop room xs, iov_room-le v)) in
      rw ((sizes v).1, e)
        (
          refl,
          back.0,
          back.1
              ∙ ap (λ t. t ++ drop room xs) front'.1
              ∙ append_assoc (contents b) (take room xs) (drop room xs)
              ∙ ap (◌++◌ (contents b)) (take-append-drop room xs),
          omega (arith, back.2, size, length-drop room xs),
        )
]
  where
    open b use {writer_index as w}

    room : ℕ
    room = length b.buffer - w
