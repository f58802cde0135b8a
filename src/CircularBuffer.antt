-- ===== src/CircularBuffer.antt =====
-- src/fs/CircularBuffer.c: a queue of pointers in an array that grows. A pointer is a number, and
-- `none` a read or a write outside an array.
pub mod Queue
use nvmfs.Prelude.{
  ℕ, ◌+◌, ◌-◌, ◌*◌, ◌%◌, Bool, Option, none, some, ◌>>=◌, List, ◌++◌, length, take, drop, set,
  get_elem?, ltb, leb, ◌==◌, if◌then◌else◌, add64, sub64, u64_mod,
}

pub record CircularBuffer : Type 0 where
  pub buffer : List ℕ
  pub head : ℕ
  pub tail : ℕ
  pub size : ℕ

abbrev pub circular_buffer_default_size : ℕ
circular_buffer_default_size = 64

-- `fresh`: the array that kvmalloc returns, whatever it holds.
unfoldable pub init : List ℕ → CircularBuffer
init fresh = record { buffer = fresh; head = 0; tail = 0; size = circular_buffer_default_size }

-- memcpy of `n` pointers of `from` at index `at` to the start of `to`.
unfoldable pub copy : List ℕ → List ℕ → ℕ → ℕ → Option (List ℕ)
copy to from at n =
    if leb (at + n) (length from)
    then if leb n (length to) then some (take n (drop at from) ++ drop n to) else none
    else none

-- The full array moves to `fresh`. Where the queue wraps around, its first part is measured in bytes
-- and copied as if that were pointers; the array is from then on what stands behind that part.
unfoldable pub grown : CircularBuffer → List ℕ → Option (List ℕ)
unfolding copy
grown cb fresh =
    let first_part_size = add64 (sub64 cb.size cb.tail) 1 * 8 % u64_mod in
    let wrapped = copy fresh cb.buffer cb.tail first_part_size >>= λ moved.
    copy (drop first_part_size moved) cb.buffer 0 (sub64 (sub64 cb.size first_part_size) 1) in
    if cb.tail == 0 then copy fresh cb.buffer 0 (sub64 cb.size 1) else wrapped

unfoldable pub put_at_head : CircularBuffer → ℕ → Option CircularBuffer
put_at_head cb datum =
    let head = add64 cb.head 1 in
    if ltb cb.head (length cb.buffer)
    then some (record cb {
      buffer = set cb.buffer cb.head datum;
      head = if leb cb.size head then sub64 head cb.size else head;
    })
    else none

-- `fresh` is used where the array is full: an array of twice the size.
unfoldable pub add : CircularBuffer → ℕ → List ℕ → Option CircularBuffer
unfolding grown put_at_head
add cb datum fresh =
    let full = grown cb fresh >>= λ buffer.
    put_at_head (record cb { buffer = buffer; size = cb.size * 2 % u64_mod }) datum in
    if add64 cb.head 1 % cb.size == cb.tail then full else put_at_head cb datum

unfoldable pub delete : CircularBuffer → Option (ℕ × CircularBuffer)
delete cb = get_elem? cb.buffer cb.tail >>= λ datum.
    let tail = add64 cb.tail 1 in
    some (datum, record cb { tail = if leb cb.size tail then sub64 tail cb.size else tail })

unfoldable pub is_empty : CircularBuffer → Bool
is_empty cb = cb.head == cb.tail
