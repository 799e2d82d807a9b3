-- ===== src/RingBuffer/Inv.antt =====
-- The bytes that a ring of src/ringbuffer_base.c holds, and when it is well formed.
use libpussy.Base.{
  ℕ, ◌+◌, ◌-◌, ◌%◌, ◌^◌, ◌≤◌, ◌<◌, ◌≡◌, List, ◌++◌, arith, ltb, lt→ltb, le→ltb, if◌then◌else◌,
  length, take, drop, ok, length-append, length-take, length-drop,
}
use libpussy.RingBuffer.{RingBuffer, mapped, deref}

-- From `head` to `tail`, going round at the end of the region.
unfoldable pub window : List ℕ → ℕ → ℕ → List ℕ
window b head tail = if ltb tail head then drop head b ++ take tail b else drop head (take tail b)

-- The number of bytes held.
unfoldable pub used : RingBuffer → ℕ
used r = if ltb r.tail r.head then r.size - r.head + r.tail else r.tail - r.head

-- `b` is what the buffer's mapping holds.
pub record IsRing (page : ℕ) (r : RingBuffer) (b : List ℕ) : Type 0 where
  pub live : r.buf ≡ mapped b
  pub extent : length b ≡ r.size
  pub small : r.size < 2 ^ 32
  pub head_in : r.head < r.size
  pub tail_in : r.tail < r.size
  pub pages : r.size % page ≡ 0

abbrev pub contents : RingBuffer → List ℕ → List ℕ
contents r b = window b r.head r.tail

pub length-contents :
    {page : ℕ} {r : RingBuffer} {b : List ℕ} → IsRing page r b → length (contents r b) ≡ used r
unfolding window used
length-contents {r = r} {b = b} v = ground (
  arith,
  length-append (drop r.head b) (take r.tail b),
  length-drop r.head b,
  length-take r.tail b,
  length-drop r.head (take r.tail b),
)

-- One byte always stays free.
pub used-lt-size : {page : ℕ} {r : RingBuffer} {b : List ℕ} → IsRing page r b → used r < r.size
unfolding used
used-lt-size v = ground arith

pub window_ordered :
    (b : List ℕ) (head tail : ℕ) → head ≤ tail → window b head tail ≡ drop head (take tail b)
unfolding window
window_ordered b head tail order = rw (le→ltb tail head order)

pub window_split :
    (b : List ℕ) (head tail : ℕ) → tail < head → window b head tail ≡ drop head b ++ take tail b
unfolding window
window_split b head tail order = rw (lt→ltb tail head order)

pub deref_live : {page : ℕ} {r : RingBuffer} {b : List ℕ} → IsRing page r b → deref r.buf ≡ ok b
unfolding deref
deref_live v = rw v.live
