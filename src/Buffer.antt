-- ===== src/Buffer.antt =====
-- plugins/Muduo/muduo/net/buffer.h and buffer.cpp: the network buffer. A pointer into the vector is
-- an index into it. An `assert` of the source is a hypothesis of the theorems, or is proved.
pub mod Layout
pub mod Space
pub mod Contents
pub mod Ints
pub mod Lines
pub mod Cuts
pub mod Socket
pub mod Tests
use moban.Prelude.{
  ℕ, ◌+◌, ◌-◌, ◌*◌, ◌/◌, ◌%◌, ◌^◌, Bool, true, false, ◌&&◌, Option, none, some, List, [], ◌∷◌, ◌++◌,
  ltb, leb, ◌==◌, if◌then◌else◌, add_size, sub_size, Bytes, length, take, get_or, replicate,
  write_at, slice,
}

abbrev pub cheap_prepend : ℕ
cheap_prepend = 8

abbrev pub initial_size : ℕ
initial_size = 1024

pub record Buffer : Type 0 where
  pub buffer : Bytes
  pub reader_index : ℕ
  pub write_index : ℕ

unfoldable pub new : Buffer
new = record {
  buffer = replicate (cheap_prepend + initial_size) 0;
  reader_index = cheap_prepend;
  write_index = cheap_prepend;
}

abbrev pub readable_bytes : Buffer → ℕ
readable_bytes b = sub_size b.write_index b.reader_index

abbrev pub writeable_bytes : Buffer → ℕ
writeable_bytes b = sub_size (length b.buffer) b.write_index

abbrev pub prependable_bytes : Buffer → ℕ
prependable_bytes b = b.reader_index

abbrev pub peek : Buffer → ℕ
peek b = b.reader_index

abbrev pub begin_write : Buffer → ℕ
begin_write b = b.write_index

-- `std::search` of "\r\n" in a range: the offset of the first match, or the length of the range.
search_crlf : Bytes → ℕ
search_crlf [] = 0
search_crlf (a ∷ s) =
    let rest = search_crlf s in if a == 13 && get_or s 0 0 == 10 then 0 else rest + 1

-- `none` is the null pointer.
unfoldable pub find_crlf_from : Buffer → ℕ → Option ℕ
unfolding search_crlf
find_crlf_from b start =
    let crlf = start + search_crlf (slice b.buffer start (b.write_index - start)) in
    if crlf == begin_write b then none else some crlf

unfoldable pub find_crlf : Buffer → Option ℕ
unfolding find_crlf_from
find_crlf b = find_crlf_from b (peek b)

unfoldable pub retrieve_all : Buffer → Buffer
retrieve_all b = record b { reader_index = cheap_prepend; write_index = cheap_prepend }

unfoldable pub retrieve : Buffer → ℕ → Buffer
unfolding retrieve_all
retrieve b len =
    if ltb len (readable_bytes b)
    then record b { reader_index = add_size b.reader_index len }
    else retrieve_all b

unfoldable pub retrieve_until : Buffer → ℕ → Buffer
unfolding retrieve
retrieve_until b end = retrieve b (sub_size end (peek b))

unfoldable pub retrieve_as_string : Buffer → ℕ → Bytes × Buffer
unfolding retrieve
retrieve_as_string b len = (slice b.buffer (peek b) len, retrieve b len)

unfoldable pub retrieve_all_as_string : Buffer → Bytes × Buffer
unfolding retrieve_as_string
retrieve_all_as_string b = retrieve_as_string b (readable_bytes b)

-- `buffer_.resize(n)`: new bytes are zero.
abbrev resize : Bytes → ℕ → Bytes
resize xs n = take n xs ++ replicate (n - length xs) 0

-- The second branch moves the bytes down to position 8; the ranges may overlap, and `std::copy`
-- goes upwards, so the bytes that arrive are the old ones.
make_space : Buffer → ℕ → Buffer
make_space b len =
    if ltb (add_size (writeable_bytes b) (prependable_bytes b)) (add_size len cheap_prepend)
    then record b { buffer = resize b.buffer (add_size b.write_index len) }
    else (record {
      buffer = write_at b.buffer cheap_prepend (slice b.buffer b.reader_index (readable_bytes b));
      reader_index = cheap_prepend;
      write_index = add_size cheap_prepend (readable_bytes b);
    })

unfoldable pub ensure_writeable_bytes : Buffer → ℕ → Buffer
unfolding make_space
ensure_writeable_bytes b len = if ltb (writeable_bytes b) len then make_space b len else b

unfoldable pub has_written : Buffer → ℕ → Buffer
has_written b len = record b { write_index = add_size b.write_index len }

-- The copy to `beginWrite()`, and `hasWritten`.
pub put : Buffer → Bytes → Buffer
unfolding has_written
put b d = has_written (record b { buffer = write_at b.buffer (begin_write b) d }) (length d)

unfoldable pub append : Buffer → Bytes → Buffer
unfolding ensure_writeable_bytes put
append b d = put (ensure_writeable_bytes b (length d)) d

unfoldable pub prepend : Buffer → Bytes → Buffer
prepend b d =
    let r = sub_size b.reader_index (length d) in
    record b { buffer = write_at b.buffer r d; reader_index = r }

-- The bytes of `htonl(x)` and `htons(x)` in memory. An `int32_t` is its bit pattern, below 2 ^ 32.
abbrev pub encode32 : ℕ → Bytes
encode32 x = (x / 2 ^ 24 % 256) ∷ (x / 2 ^ 16 % 256) ∷ (x / 2 ^ 8 % 256) ∷ (x % 256) ∷ []

abbrev pub encode16 : ℕ → Bytes
encode16 x = (x / 2 ^ 8 % 256) ∷ (x % 256) ∷ []

abbrev pub encode8 : ℕ → Bytes
encode8 x = (x % 256) ∷ []

-- `memcpy` from `peek()`, then `ntohl`.
abbrev decode32 : Bytes → ℕ
decode32 s = get_or s 0 0 * 2 ^ 24 + get_or s 1 0 * 2 ^ 16 + get_or s 2 0 * 2 ^ 8 + get_or s 3 0

abbrev decode16 : Bytes → ℕ
decode16 s = get_or s 0 0 * 2 ^ 8 + get_or s 1 0

unfoldable pub append_int32 : Buffer → ℕ → Buffer
append_int32 b x = append b (encode32 x)

unfoldable pub append_int16 : Buffer → ℕ → Buffer
append_int16 b x = append b (encode16 x)

unfoldable pub append_int8 : Buffer → ℕ → Buffer
append_int8 b x = append b (encode8 x)

-- An `int32_t` is given by its 32 bits, and the narrower ones by theirs.
unfoldable pub peek_int32 : Buffer → ℕ
peek_int32 b = decode32 (slice b.buffer (peek b) 4)

unfoldable pub peek_int16 : Buffer → ℕ
peek_int16 b = decode16 (slice b.buffer (peek b) 2)

unfoldable pub peek_int8 : Buffer → ℕ
peek_int8 b = get_or (slice b.buffer (peek b) 1) 0 0

unfoldable pub read_int32 : Buffer → ℕ × Buffer
unfolding peek_int32
read_int32 b = (peek_int32 b, retrieve b 4)

unfoldable pub read_int16 : Buffer → ℕ × Buffer
unfolding peek_int16
read_int16 b = (peek_int16 b, retrieve b 2)

unfoldable pub read_int8 : Buffer → ℕ × Buffer
unfolding peek_int8
read_int8 b = (peek_int8 b, retrieve b 1)

unfoldable pub prepend_int32 : Buffer → ℕ → Buffer
prepend_int32 b x = prepend b (encode32 x)

unfoldable pub prepend_int16 : Buffer → ℕ → Buffer
prepend_int16 b x = prepend b (encode16 x)

unfoldable pub prepend_int8 : Buffer → ℕ → Buffer
prepend_int8 b x = prepend b (encode8 x)

-- The new buffer, which `swap` makes this one.
unfoldable pub shrink : Buffer → ℕ → Buffer
shrink b reserve =
    let other = ensure_writeable_bytes new (add_size (readable_bytes b) reserve) in
    append other (retrieve_all_as_string b).0

-- What `::readv` answers: an `errno`, or the bytes that it put into the two blocks, in order.
pub data ReadvResult : Type 0 where
  failed : ℕ → ReadvResult
  received : Bytes → ReadvResult

abbrev pub extra_size : ℕ
extra_size = 65536

-- The bytes that went past the vector are in `extrabuff`, and are appended.
read_fd_bytes : Buffer → Bytes → Buffer
read_fd_bytes b d =
    let writable = writeable_bytes b in
    let direct = record b { buffer = write_at b.buffer b.write_index (take writable d) } in
    if leb (length d) writable
    then record direct { write_index = add_size b.write_index (length d) }
    else append (record direct { write_index = length b.buffer })
        (slice d writable (length d - writable))

-- The return value is `none` for -1; the last part is what goes to `*saveErrno`.
unfoldable pub read_fd : Buffer → ReadvResult → Buffer × Option ℕ × Option ℕ
unfolding read_fd_bytes
read_fd b (failed errno) = (b, none, some errno)
read_fd b (received d) = (read_fd_bytes b d, some (length d), none)
