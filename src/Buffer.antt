-- ===== src/Buffer.antt =====
-- The byte buffer of a connection: include/net/Buffer.h and src/net/Buffer.cc. A method returns the
-- new buffer beside its result; `size_t` sums and differences wrap. The proofs are in the modules
-- below this one.
pub mod Inv
pub mod Queue
pub mod Reference
mod Tests
use cluster_chat_server.Prelude.{
  ℕ, ◌+◌, List, [], ◌∷◌, ◌++◌, length, take, drop, replicate, overwrite, ltb, leb, if◌then◌else◌,
  size_add, size_sub,
}
use cluster_chat_server.Prelude.Text.{Bytes}

abbrev pub cheap_prepend : ℕ
cheap_prepend = 8

abbrev pub initial_size : ℕ
initial_size = 1024

-- `char extrabuf[65535]` of `readFd`.
abbrev pub extra_size : ℕ
extra_size = 65535

-- `buffer` is the whole vector, the free space included.
pub record Buffer : Type 0 where
  pub buffer : Bytes
  pub reader_index : ℕ
  pub writer_index : ℕ

-- `Buffer(initialSize)`.
unfoldable pub init : ℕ → Buffer
init size = record {
  buffer = replicate (size_add cheap_prepend size) 0;
  reader_index = cheap_prepend;
  writer_index = cheap_prepend;
}

unfoldable pub readable_bytes : Buffer → ℕ
readable_bytes b = size_sub b.writer_index b.reader_index

unfoldable pub writable_bytes : Buffer → ℕ
writable_bytes b = size_sub (length b.buffer) b.writer_index

pub prependable_bytes : Buffer → ℕ
prependable_bytes b = b.reader_index

-- `std::vector<char>::resize`: new bytes are zero.
resize : Bytes → ℕ → Bytes
resize xs n = take n xs ++ replicate (size_sub n (length xs)) 0

-- The bytes that `peek()` shows, `n` of them.
pub peek : Buffer → ℕ → Bytes
peek b n = take n (drop b.reader_index b.buffer)

-- Grow the vector, or move the readable bytes to the front.
pub make_space : Buffer → ℕ → Buffer
make_space b len =
    if ltb (size_add (writable_bytes b) (prependable_bytes b)) (size_add len cheap_prepend)
    then record b { buffer = resize b.buffer (size_add b.writer_index len) }
    else record {
      buffer = overwrite b.buffer cheap_prepend (peek b (readable_bytes b));
      reader_index = cheap_prepend;
      writer_index = size_add cheap_prepend (readable_bytes b);
    }

unfoldable pub ensure_writeable_bytes : Buffer → ℕ → Buffer
ensure_writeable_bytes b len = if ltb (writable_bytes b) len then make_space b len else b

-- `append(data, len)`: the bytes are copied to the write position, which moves past them.
unfoldable pub append : Buffer → Bytes → Buffer
append b xs =
    let c = ensure_writeable_bytes b (length xs) in
    record c {
      buffer = overwrite c.buffer c.writer_index xs;
      writer_index = size_add c.writer_index (length xs);
    }

pub retrieve_all : Buffer → Buffer
retrieve_all b = record b { reader_index = cheap_prepend; writer_index = cheap_prepend }

pub retrieve : Buffer → ℕ → Buffer
unfolding retrieve_all
retrieve b len =
    if ltb len (readable_bytes b)
    then record b { reader_index = size_add b.reader_index len }
    else retrieve_all b

pub retrieve_as_string : Buffer → ℕ → Bytes × Buffer
retrieve_as_string b len = (peek b len, retrieve b len)

pub retrieve_all_as_string : Buffer → Bytes × Buffer
unfolding retrieve_as_string
retrieve_all_as_string b = retrieve_as_string b (readable_bytes b)

-- What the kernel answers to `readv` or `write`: an error number, or what it transferred.
pub data Io {ℓ} (A : Type ℓ) : Type ℓ where
  failed : ℕ → Io A
  done : A → Io A

-- How many bytes the two `iovec`s of `readFd` offer: the second one only if the first is small.
pub iov_room : Buffer → ℕ
iov_room b =
    if ltb (writable_bytes b) extra_size then writable_bytes b + extra_size else writable_bytes b

-- `readFd`, given what `readv` did: it filled the free space, then `extrabuf`.
pub read_fd : Buffer → Io Bytes → Io ℕ × Buffer
read_fd b (failed errno) = (failed errno, b)
read_fd b (done xs) =
    let writeable = writable_bytes b in
    let n = length xs in
    let filled = overwrite b.buffer b.writer_index (take writeable xs) in
    if leb n writeable
    then (done n, record b { buffer = filled; writer_index = size_add b.writer_index n })
    else (
      done n,
      append (record b { buffer = filled; writer_index = length b.buffer }) (drop writeable xs),
    )

-- `writeFd`, given what `write` did with the readable bytes: how many it took.
pub write_fd : Buffer → Io ℕ → Io ℕ
write_fd b reply = reply
