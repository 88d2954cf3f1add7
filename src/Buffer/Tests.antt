-- ===== src/Buffer/Tests.antt =====
-- Runs of the buffer from a fresh one of eight bytes.
use cluster_chat_server.Prelude.{List, ◌+◌, ◌≡◌, refl, ◌≤◌, [], ◌∷◌, ◌++◌, arith, length, replicate}
use cluster_chat_server.Prelude.Text.{Bytes, codes}
use cluster_chat_server.Buffer.{
  Buffer, init, append, retrieve, iov_room, writable_bytes, readable_bytes, ensure_writeable_bytes,
  make_space, extra_size, peek, prependable_bytes,
}
use cluster_chat_server.Buffer.Inv.{IsValid, contents}
use cluster_chat_server.Buffer.Reference.{
  Op, appends, reads, retrieves, takes_all, operate_all, queue_all, equals_queue,
}
use cluster_chat_server.Buffer.Queue.{init-IsValid, init_size, append_lem}

-- Longer than the space of the buffer.
abbrev text : Bytes
text = codes "hello, world"

abbrev small : Buffer
small = init 8

abbrev full : Buffer
full = append small text

append_lem_example :
    IsValid full
    × (contents full ≡ contents small ++ text)
    × (length full.buffer ≤ length small.buffer + length text)
append_lem_example =
    append_lem {b = small} text (init-IsValid 8 (omega arith)).0 (omega (arith, init_size 8))

full-IsValid : IsValid full
full-IsValid =
    (append_lem {b = small} text (init-IsValid 8 (omega arith)).0 (omega (arith, init_size 8))).0

small-room : length text ≤ iov_room small
unfolding iov_room writable_bytes init
small-room = omega arith

-- What the buffer does, run: it moves its bytes to the front, and grows when that is not enough.
test_moves :
    (append (retrieve (append small (codes "abcdef")) 5) (codes "ghijkl")).buffer
    ≡ replicate 8 0 ++ (codes "fghijkl" ++ 0 ∷ [])
unfolding append init retrieve ensure_writeable_bytes make_space readable_bytes writable_bytes peek
    prependable_bytes
test_moves = refl

abbrev ops : List Op
ops =
    appends text
    ∷ reads text
    ∷ retrieves 7
    ∷ reads (codes "more")
    ∷ appends (codes "!")
    ∷ takes_all
    ∷ appends text
    ∷ retrieves 40
    ∷ []

extra : extra_size ≡ 65535
unfolding extra_size
extra = refl

equals_queue_example :
    let t = operate_all ops (init 8) in
    IsValid t.1 × (t.0 ≡ (queue_all ops []).0) × (contents t.1 ≡ (queue_all ops []).1)
equals_queue_example =
    equals_queue 8 ops (omega arith) (omega arith)
      (omega (arith, extra), (omega (arith, extra), record {}))
