-- ===== src/StringOps.antt =====
-- src/stdlib/string.c. A pointer is an index into a byte array. `memcpy` and `memcmp` take their two
-- areas as two arrays, which is what `restrict` promises; `memmove` and `concat` work in one array,
-- so that their areas may overlap. Loop counters stay below the sizes given, so they do not wrap.
pub mod Memory
pub mod Move
pub mod Compare
pub mod Length
use os_2024_operatingsalsa.Base.{
  some, none, Option, ℕ, zero, suc, ◌+◌, ◌^◌, Bool, true, false, if◌then◌else◌, ltb, ◌==◌, u8,
  Bytes, store, ℤ, pos, negsuc, minus_one, ◌-◌, not, ◌&&◌,
}

-- `for (i = 0; i < n; i++) buf[i] = (uint8_t) c`, with `left` rounds to go.
memset_loop : ℕ → ℕ → Bytes → ℕ → ℕ → Bytes
memset_loop zero i m s c = m
memset_loop (suc left) i m s c = memset_loop left (i + 1) (store m (s + i) (u8 c)) s c

unfoldable pub memset : Bytes → ℕ → ℕ → ℕ → Bytes
unfolding memset_loop
memset m s c n = memset_loop n 0 m s c

-- `clear` is `memset` with 0, written out once more in the source.
clear_loop : ℕ → ℕ → Bytes → ℕ → Bytes
clear_loop zero i m p = m
clear_loop (suc left) i m p = clear_loop left (i + 1) (store m (p + i) 0) p

unfoldable pub clear : Bytes → ℕ → ℕ → Bytes
unfolding clear_loop
clear m p n = clear_loop n 0 m p

-- `dstbuf[i] = srcbuf[i]`, upwards.
memcpy_loop : ℕ → ℕ → Bytes → ℕ → Bytes → ℕ → Bytes
memcpy_loop zero i dst d src s = dst
memcpy_loop (suc left) i dst d src s =
    memcpy_loop left (i + 1) (store dst (d + i) (src (s + i))) d src s

unfoldable pub memcpy : Bytes → ℕ → Bytes → ℕ → ℕ → Bytes
unfolding memcpy_loop
memcpy dst d src s n = memcpy_loop n 0 dst d src s

-- The scan with `left` bytes to compare. What `let` binds waits for the tests.
memcmp_loop : ℕ → ℕ → Bytes → ℕ → Bytes → ℕ → ℤ
memcmp_loop zero i a s b t = pos 0
memcmp_loop (suc left) i a s b t =
    let rest = memcmp_loop left (i + 1) a s b t in
    if ltb (a (s + i)) (b (t + i))
    then minus_one
    else if ltb (b (t + i)) (a (s + i))
    then pos 1
    else rest

unfoldable pub memcmp : Bytes → ℕ → Bytes → ℕ → ℕ → ℤ
unfolding memcmp_loop
memcmp a s b t n = memcmp_loop n 0 a s b t

-- `for (i = 0; i < n; i++) dstbuf[i] = srcbuf[i]` inside one array.
pub move_up : ℕ → ℕ → Bytes → ℕ → ℕ → Bytes
move_up zero i m d s = m
move_up (suc left) i m d s = move_up left (i + 1) (store m (d + i) (m (s + i))) d s

-- `for (i = n; i != 0; i--) dstbuf[i-1] = srcbuf[i-1]`.
move_down : ℕ → Bytes → ℕ → ℕ → Bytes
move_down zero m d s = m
move_down (suc i) m d s = move_down i (store m (d + i) (m (s + i))) d s

unfoldable pub memmove : Bytes → ℕ → ℕ → ℕ → Bytes
unfolding move_up move_down
memmove m d s n = if ltb d s then move_up n 0 m d s else move_down n m d s

-- `while (str[length] != '\0') length++`. The fuel is the number of bytes of the address space: where none
-- of them is zero the source never ends, and the length is 2^32, which no `uint32_t` holds.
strlen_loop : ℕ → Bytes → ℕ → ℕ → ℕ
strlen_loop zero m s length = length
strlen_loop (suc fuel) m s length =
    let rest = strlen_loop fuel m s (length + 1) in if m (s + length) == 0 then length else rest

unfoldable pub strlen : Bytes → ℕ → ℕ
unfolding strlen_loop
strlen m s = strlen_loop (2 ^ 32) m s 0

-- The three writes of `concat` into `charconcat`; `char1` and `charconcat` may be one string.
unfoldable pub concat : Bytes → ℕ → ℕ → ℕ → Bytes
unfolding move_up
concat m char1 char2 out =
    let len1 = strlen m char1 in
    let len2 = strlen m char2 in
    let m1 = move_up len1 0 m out char1 in
    let m2 = store m1 (out + len1) b'/' in
    let m3 = move_up len2 0 m2 (out + len1 + 1) char2 in store m3 (out + len1 + len2 + 1) 0

-- The loop of `getWord` that looks for the start of a word, with the bytes that are left: `none` is the
-- -1 of the source. `counter` counts the words; all numbers stay below the length.
get_word_loop : ℕ → ℕ → ℕ → Bytes → ℕ → ℕ → Option ℕ
get_word_loop zero i counter m str word_idx = none
get_word_loop (suc left) i counter m str word_idx =
    let first = (i == 0) && not (m str == b' ') in
    let starts = (m (str + i) == b' ') && not (m (str + i + 1) == b' ') in
    let next = get_word_loop left (i + 1) (counter + 1) m str word_idx in
    let same = get_word_loop left (i + 1) counter m str word_idx in
    if first
    then (if word_idx + 1 == counter + 1 then some i else next)
    else if starts
    then (if word_idx + 1 == counter + 1 then some (i + 1) else next)
    else same

-- `while (str[idx] != ' ' && idx < n)`, and the zero behind.
copy_word_loop : ℕ → ℕ → ℕ → ℕ → Bytes → ℕ → Bytes → ℕ → Bytes
copy_word_loop zero i idx n m str out buf = store out (buf + i) 0
copy_word_loop (suc left) i idx n m str out buf =
    let rest =
      copy_word_loop left (i + 1) (idx + 1) n m str (store out (buf + i) (m (str + idx))) buf in
    if not (m (str + idx) == b' ') && ltb idx n then rest else store out (buf + i) 0

-- The string and the buffer are two arrays.
unfoldable pub get_word : Bytes → ℕ → ℕ → Bytes → ℕ → Bytes
unfolding get_word_loop copy_word_loop
get_word m str word_idx out buf =
    let n = strlen m str in
    elim (get_word_loop n 0 0 m str word_idx) [
      | none ↦ store out buf 0
      | some idx ↦ copy_word_loop (n - idx) 0 idx n m str out buf
    ]
