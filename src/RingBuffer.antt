-- ===== src/RingBuffer.antt =====
-- src/ringbuffer_base.c: the functions on a ring of bytes over an anonymous mapping.
pub mod Inv
pub mod Size
pub mod Grow
pub mod Read
pub mod Shrink
mod Tests
pub mod Write
pub mod Create
use libpussy.Base.{
  ℕ, ◌+◌, ◌-◌, bit_and, Bool, true, false, none, some, List, [], ◌++◌, ltb, leb, ◌==◌,
  if◌then◌else◌, u32, sub32, Run, ok, aborted, undefined, ◌>>=◌,
}
use libpussy.Base.Bits.{complement}
use libpussy.Base.Memory.{load, store, memmove}
use libpussy.Align.{align_unsigned}
use libpussy.MemoryMap.{MemoryMap}

-- `ringbuf->data`: null, MAP_FAILED, or the mapped bytes.
pub data Mapping : Type 0 where
  nullptr map_failed : Mapping
  mapped : List ℕ → Mapping

pub record RingBuffer : Type 0 where
  pub buf : Mapping
  pub size : ℕ
  pub head : ℕ
  pub tail : ℕ

-- An access through the pointer.
unfoldable pub deref : Mapping → Run (List ℕ)
deref nullptr = undefined
deref map_failed = undefined
deref (mapped b) = ok b

-- `read_ringbuffer` fills the caller's buffer and returns the count.
pub record ReadResult : Type 0 where
  pub bytes : List ℕ
  pub count : ℕ
  pub ring : RingBuffer

module _ (m : MemoryMap) (page : ℕ) where
  -- The size of the mapping for a requested size.
  unfoldable pub round_size : ℕ → ℕ
  round_size size = let n = align_unsigned size page in if n == 0 then page else n

  unfoldable pub init_ringbuffer : RingBuffer → ℕ → Bool × RingBuffer
  init_ringbuffer r size =
      let n = round_size size in
      elim (m.mmap n) [
        | none ↦ (false, record r { buf = map_failed; size = n })
        | some b ↦ (true, record { buf = mapped b; size = n; head = 0; tail = 0 })
      ]

  unfoldable pub fini_ringbuffer : RingBuffer → RingBuffer
  fini_ringbuffer r = elim r.buf [ nullptr ↦ r | _ ↦ record r { buf = nullptr } ]

  -- After `mremap`: the upper data moves up to the end of the buffer.
  unfoldable pub grow_moved : RingBuffer → List ℕ → ℕ → Run (Bool × RingBuffer)
  grow_moved r b n =
      if ltb r.tail r.head
      then (do
        let offset = sub32 n r.size
        b' ← memmove b (r.head + offset) r.head (sub32 r.size r.head)
        ok (true, record r { buf = mapped b'; size = n; head = u32 (r.head + offset) }))
      else ok (true, record r { buf = mapped b; size = n })

  unfoldable pub grow_ringbuffer : RingBuffer → ℕ → Run (Bool × RingBuffer)
  unfolding grow_moved deref
  grow_ringbuffer r size =
      let n = round_size size in
      if leb n r.size then ok (true, r) else (do
        old ← deref r.buf
        elim (m.mremap old n) [ none ↦ ok (false, r) | some b ↦ grow_moved r b n ])

  -- `x & ~(sys_page_size - 1)`
  unfoldable pub whole_pages : ℕ → ℕ
  whole_pages x = bit_and x (complement 32 (page - 1))

  -- `shrinkable_bytes`, with the ring after the data has been moved out of the way; at zero the
  -- caller returns.
  unfoldable pub reclaim : RingBuffer → Run (ℕ × RingBuffer)
  unfolding deref
  reclaim r =
      if r.head == r.tail
      then ok (sub32 r.size page, record r { head = 0; tail = 0 })
      else if ltb r.tail r.head
      then (let s = whole_pages (sub32 (sub32 r.head r.tail) 1) in
          if s == 0 then ok (0, r) else (do
            b ← deref r.buf
            b' ← memmove b (sub32 r.head s) r.head (sub32 r.size r.head)
            ok (s, record r { buf = mapped b'; head = sub32 r.head s })))
      else (let s = whole_pages (sub32 (sub32 (u32 (r.head + r.size)) r.tail) 1) in
          if s == 0 then ok (0, r) else if r.head == 0 then ok (s, r) else (do
            b ← deref r.buf
            b' ← memmove b 0 r.head (sub32 r.tail r.head)
            ok (s, record r { buf = mapped b'; head = 0; tail = sub32 r.tail r.head })))

  -- The last part: `mremap` to the new size, but to no less than the data needs.
  unfoldable pub shrink_mapping : RingBuffer → ℕ → ℕ → Run RingBuffer
  unfolding deref
  shrink_mapping r s n =
      let least = sub32 r.size s in
      let n' = if ltb n least then least else n in
      do
        old ← deref r.buf
        elim (m.mremap old n') [
          | none ↦ aborted
          | some b ↦ ok (record r { buf = mapped b; size = n' })
        ]

  unfoldable pub shrink_ringbuffer : RingBuffer → ℕ → Run RingBuffer
  shrink_ringbuffer r size =
      let n = round_size size in
      if leb r.size n
      then ok r
      else (do (s, r') ← reclaim r; if s == 0 then ok r' else shrink_mapping r' s n)

-- The two halves of `write_ringbuffer`: `tail_len` bytes fit before the wrap, `avail` in all.
unfoldable pub write_within : RingBuffer → List ℕ → ℕ → ℕ → ℕ → Run (Bool × RingBuffer)
unfolding deref
write_within r src n tail_len avail =
    if leb avail n
    then ok (false, r)
    else if ltb n tail_len
    then (do
      x ← load src 0 n
      b ← deref r.buf
      b' ← store b r.tail x
      ok (true, record r { buf = mapped b'; tail = u32 (r.tail + n) }))
    else (let head_len = sub32 n tail_len in
        do
          x ← load src 0 tail_len
          b ← deref r.buf
          b' ← store b r.tail x
          b'' ← if head_len == 0 then ok b' else (do y ← load src tail_len head_len; store b' 0 y)
          ok (true, record r { buf = mapped b''; tail = head_len }))

unfoldable pub write_ringbuffer : RingBuffer → List ℕ → ℕ → Run (Bool × RingBuffer)
unfolding write_within
write_ringbuffer r src n =
    if ltb r.tail r.head
    then write_within r src n (sub32 r.head r.tail) (sub32 r.head r.tail)
    else (let tail_len = sub32 r.size r.tail in
        write_within r src n tail_len (u32 (r.head + tail_len)))

unfoldable pub read_ringbuffer : RingBuffer → ℕ → Run ReadResult
unfolding deref
read_ringbuffer r n =
    if r.head == r.tail
    then ok (record { bytes = []; count = 0; ring = r })
    else if ltb r.head r.tail
    then (let data_size = sub32 r.tail r.head in
        let len = if leb data_size n then data_size else n in
        do
          b ← deref r.buf
          x ← load b r.head len
          ok (record { bytes = x; count = len; ring = record r { head = u32 (r.head + len) } }))
    else (let upper_len = sub32 r.size r.tail in
        if leb n upper_len
        then (do
          b ← deref r.buf
          x ← load b r.head n
          let head' = if n == upper_len then 0 else u32 (r.head + upper_len)
          ok (record { bytes = x; count = n; ring = record r { head = head' } }))
        else (let rest = sub32 n upper_len in
            let lower_len = if ltb r.tail rest then r.tail else rest in
            do
              b ← deref r.buf
              x ← load b r.head upper_len
              y ← load b 0 lower_len
              ok (record {
                bytes = x ++ y;
                count = u32 (upper_len + lower_len);
                ring = record r { head = lower_len };
              })))
