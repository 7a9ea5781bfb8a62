-- ===== src/Buffer/Tests.antt =====
-- The theorems on the buffer, at the buffer that the constructor makes.
use moban.Buffer.{
  Buffer, new, append, read_fd, received, readable_bytes, prependable_bytes, writeable_bytes,
  extra_size, prepend_int32, read_int32, retrieve_as_string, cheap_prepend,
}
use moban.Buffer.Layout.{IsValid, contents, Fits}
use moban.Buffer.Contents.{new-IsValid, new-Fits, append_lem}
use moban.Buffer.Ints.{unframe-frame, to_size}
use moban.Buffer.Socket.{read_fd_lem}
use moban.Prelude.{◌+◌, ◌^◌, ◌≤◌, ◌<◌, ◌≡◌, refl, [], ◌++◌, Bytes, codes, length, some, none, arith}

abbrev line : Bytes
line = codes "PWD\r\nPASV"

line-Fits : Fits new (length line)
line-Fits = new-Fits (length line) (omega arith)

append_lem_example : IsValid (append new line) × (contents (append new line) ≡ contents new ++ line)
append_lem_example = append_lem new line new-IsValid.0 line-Fits

abbrev filled : Buffer
filled = append new line

filled-IsValid : IsValid filled
filled-IsValid = (append_lem new line new-IsValid.0 line-Fits).0

three_readable : 3 ≤ readable_bytes filled
unfolding append new
three_readable = omega arith

four_free : 4 ≤ prependable_bytes filled
unfolding append new
four_free = omega arith

small_vector : length filled.buffer + 16 < 2 ^ 62
unfolding append new
small_vector = omega arith

room_to_read :
    (length line ≤ writeable_bytes new + extra_size)
    × (length new.buffer + extra_size + cheap_prepend < 2 ^ 63)
unfolding new
room_to_read = (omega arith, omega arith)

read_fd_lem_example :
    let (b', n, e) = read_fd new (received line) in
    IsValid b' × (contents b' ≡ contents new ++ line) × (n ≡ some (length line)) × (e ≡ none)
read_fd_lem_example = read_fd_lem new line new-IsValid.0 room_to_read.0 room_to_read.1

filled_short : length (contents filled) < 2 ^ 31
unfolding append new
filled_short = omega arith

new-empty : contents new ≡ []
unfolding new
new-empty = refl

unframe-frame_example :
    let s = contents filled in
    let (n, b1) = read_int32 (prepend_int32 filled (length s)) in
    let (t, b2) = retrieve_as_string b1 (to_size n) in (n ≡ length s) × (t ≡ s) × (contents b2 ≡ [])
unframe-frame_example =
    unframe-frame filled (contents filled) filled-IsValid refl filled_short four_free
