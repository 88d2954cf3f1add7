-- ===== src/Buffer/Reference.antt =====
-- The buffer against a plain queue of bytes.
use cluster_chat_server.Prelude.{
  ℕ, ◌+◌, ◌<◌, ◌≤◌, ◌^◌, ◌≡◌, refl, List, [], ◌∷◌, ◌++◌, arith, length, drop, ap, ◌∙◌,
}
use cluster_chat_server.Prelude.Text.{Bytes}
use cluster_chat_server.Buffer.{
  Buffer, init, append, retrieve, retrieve_all, retrieve_all_as_string, retrieve_as_string,
  readable_bytes, read_fd, iov_room, done, extra_size,
}
use cluster_chat_server.Buffer.Inv.{IsValid, contents}
use cluster_chat_server.Buffer.Queue.{
  init-IsValid, init_size, append_lem, retrieve_lem, retrieve_all_as_string_lem, read_fd_lem,
}

pub data Op : Type 0 where
  appends : Bytes → Op
  reads : Bytes → Op
  retrieves : ℕ → Op
  takes_all : Op

-- One operation: what it gives, and what is left.
unfoldable pub operate : Op → Buffer → Bytes × Buffer
operate (appends xs) b = ([], append b xs)
operate (reads xs) b = ([], (read_fd b (done xs)).1)
operate (retrieves n) b = ([], retrieve b n)
operate takes_all b = retrieve_all_as_string b

abbrev pub queue : Op → Bytes → Bytes × Bytes
queue (appends xs) q = ([], q ++ xs)
queue (reads xs) q = ([], q ++ xs)
queue (retrieves n) q = ([], drop n q)
queue takes_all q = (q, [])

-- What a sequence of operations gives, and what is left.
unfoldable pub operate_all : List Op → Buffer → List Bytes × Buffer
unfolding operate
operate_all [] b = ([], b)
operate_all (op ∷ ops) b =
    let (out, b') = operate op b in let (outs, last) = operate_all ops b' in (out ∷ outs, last)

abbrev pub queue_all : List Op → Bytes → List Bytes × Bytes
queue_all [] q = ([], q)
queue_all (op ∷ ops) q =
    let (out, q') = queue op q in let (outs, last) = queue_all ops q' in (out ∷ outs, last)

-- How many bytes a sequence appends or reads.
abbrev pub appended : List Op → ℕ
appended [] = 0
appended (appends xs ∷ ops) = length xs + appended ops
appended (reads xs ∷ ops) = length xs + appended ops
appended (retrieves n ∷ ops) = appended ops
appended (takes_all ∷ ops) = appended ops

-- What one `readFd` can take, whatever room the buffer has.
abbrev pub ReadsFit : List Op → Type 0
ReadsFit [] = Unit
ReadsFit (appends xs ∷ ops) = ReadsFit ops
ReadsFit (reads xs ∷ ops) = (length xs ≤ extra_size) × ReadsFit ops
ReadsFit (retrieves n ∷ ops) = ReadsFit ops
ReadsFit (takes_all ∷ ops) = ReadsFit ops

pub extra_size-le : (b : Buffer) → extra_size ≤ iov_room b
unfolding iov_room
extra_size-le b = ground arith

length-retrieve : (b : Buffer) (n : ℕ) → length (retrieve b n).buffer ≡ length b.buffer
unfolding retrieve retrieve_all
length-retrieve b n = ground arith

pub length-retrieve_all :
    (b : Buffer) → length (retrieve_all_as_string b).1.buffer ≡ length b.buffer
unfolding retrieve_all_as_string retrieve_as_string
length-retrieve_all b = length-retrieve b (readable_bytes b)

-- One operation agrees with the queue, and leaves room for the others.
operate-Agrees :
    (op : Op) (ops : List Op) (b : Buffer)
    → IsValid b
    → ReadsFit (op ∷ ops)
    → length b.buffer + appended (op ∷ ops) + extra_size < 2 ^ 63
    → let t = operate op b in
      IsValid t.1
      × (t.0 ≡ (queue op (contents b)).0)
      × (contents t.1 ≡ (queue op (contents b)).1)
      × (length t.1.buffer + appended ops + extra_size < 2 ^ 63)
unfolding operate
operate-Agrees (appends xs) ops b v fit h =
    let (valid, same, size) = append_lem {b = b} xs v (omega (arith, h)) in
    (valid, refl, same, omega (arith, h, size))
operate-Agrees (reads xs) ops b v fit h =
    let (_, valid, same, size) =
      read_fd_lem {b = b} xs v (omega (arith, fit.0, extra_size-le b)) (omega (arith, h)) in
    (valid, refl, same, omega (arith, h, size))
operate-Agrees (retrieves n) ops b v fit h =
    let (valid, same) = retrieve_lem {b = b} n v in
    (valid, refl, same, omega (arith, h, length-retrieve b n))
operate-Agrees takes_all ops b v fit h =
    let (out, valid, same) = retrieve_all_as_string_lem {b = b} v in
    (valid, out, same, omega (arith, h, length-retrieve_all b))

ReadsFit-tail : (op : Op) (ops : List Op) → ReadsFit (op ∷ ops) → ReadsFit ops
ReadsFit-tail (appends xs) ops fit = fit
ReadsFit-tail (reads xs) ops fit = fit.1
ReadsFit-tail (retrieves n) ops fit = fit
ReadsFit-tail takes_all ops fit = fit

all-Agrees :
    (ops : List Op) (b : Buffer)
    → IsValid b
    → ReadsFit ops
    → length b.buffer + appended ops + extra_size < 2 ^ 63
    → let t = operate_all ops b in
      IsValid t.1
      × (t.0 ≡ (queue_all ops (contents b)).0)
      × (contents t.1 ≡ (queue_all ops (contents b)).1)
unfolding operate_all
all-Agrees [] b v fit h = (v, refl, refl)
all-Agrees (op ∷ ops) b v fit h =
    let (valid, out, same, room) = operate-Agrees op ops b v fit h in
    let (valid', outs, same') =
      all-Agrees ops (operate op b).1 valid (ReadsFit-tail op ops fit) room in
    (
      valid',
      ap (λ t. t ∷ (operate_all ops (operate op b).1).0) out
          ∙ ap (◌∷◌ (queue op (contents b)).0) (outs ∙ ap (λ q. (queue_all ops q).0) same),
      same' ∙ ap (λ q. (queue_all ops q).1) same,
    )

-- For a fresh buffer of fewer than 2^62 bytes and a sequence of operations that appends and reads
-- fewer than 2^61, no read more than the 65535 bytes of `extrabuf`: every operation gives what it
-- gives of a plain queue, and what is left in the buffer, which is valid, is what is left in the
-- queue.
pub equals_queue :
    (size : ℕ) (ops : List Op)
    → size < 2 ^ 62
    → appended ops < 2 ^ 61
    → ReadsFit ops
    → let t = operate_all ops (init size) in
      IsValid t.1 × (t.0 ≡ (queue_all ops []).0) × (contents t.1 ≡ (queue_all ops []).1)
equals_queue size ops h k fit =
    let (valid, empty) = init-IsValid size h in
    let (left, outs, same) =
      all-Agrees ops (init size) valid fit (omega (arith, init_size size, h, k)) in
    (left, outs ∙ ap (λ q. (queue_all ops q).0) empty, same ∙ ap (λ q. (queue_all ops q).1) empty)
