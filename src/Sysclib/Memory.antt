-- ===== src/Sysclib/Memory.antt =====
-- The memory operations of src/iop/sysclib.cpp. Memory is a function from an address to a byte,
-- and the objects a caller names do not run over the end of the address space. An answer of 0 is
-- the null pointer, and an `int` is the 32 bits of it.
use ps2bios_rebuild.Common.{
  ℕ, zero, suc, ◌+◌, ◌*◌, ◌/◌, ◌%◌, Bool, ◌&&◌, ◌||◌, ltb, leb, ◌==◌, if◌then◌else◌, update,
}

abbrev pub Bytes : Type 0
Bytes = ℕ → ℕ

abbrev pub null : ℕ
null = 0

-- An `int` below 0.
abbrev pub is_negative : ℕ → Bool
is_negative n = leb 0x80000000 n

abbrev pub read_word : Bytes → ℕ → ℕ
read_word m a = m a + 0x100 * m (a + 1) + 0x10000 * m (a + 2) + 0x1000000 * m (a + 3)

abbrev pub write_word : Bytes → ℕ → ℕ → Bytes
write_word m a v =
    update
      (update (update (update m a (v % 0x100)) (a + 1) (v / 0x100 % 0x100)) (a + 2)
        (v / 0x10000 % 0x100))
      (a + 3) (v / 0x1000000 % 0x100)

-- d[i] = s[i], of words.
unfoldable pub copy_word : Bytes → ℕ → ℕ → ℕ → Bytes
copy_word m d s i = write_word m (d + 4 * i) (read_word m (s + 4 * i))

-- for (; i < words; i++) d[i] = s[i], n times from i on.
unfoldable pub copy_words : ℕ → Bytes → ℕ → ℕ → ℕ → Bytes
copy_words zero m d s i = m
copy_words (suc n) m d s i = copy_words n (copy_word m d s i) d s (suc i)

-- The unrolled loop, n rounds of four words.
unfoldable pub copy_fours : ℕ → Bytes → ℕ → ℕ → ℕ → Bytes
copy_fours zero m d s i = m
copy_fours (suc n) m d s i =
    let m = copy_word m d s (i + 0) in
    let m = copy_word m d s (i + 1) in
    let m = copy_word m d s (i + 2) in let m = copy_word m d s (i + 3) in copy_fours n m d s (i + 4)

-- Ordinal 40.
unfoldable pub word_copy : Bytes → ℕ → ℕ → ℕ → Bytes
word_copy m d s nbytes =
    let words = nbytes / 4 in
    copy_words (words % 4) (copy_fours (words / 4) m d s 0) d s (4 * (words / 4))

-- d[i] = value, of words.
unfoldable pub fill_word : Bytes → ℕ → ℕ → ℕ → Bytes
fill_word m d v i = write_word m (d + 4 * i) v

unfoldable pub fill_words : ℕ → Bytes → ℕ → ℕ → ℕ → Bytes
fill_words zero m d v i = m
fill_words (suc n) m d v i = fill_words n (fill_word m d v i) d v (suc i)

unfoldable pub fill_fours : ℕ → Bytes → ℕ → ℕ → ℕ → Bytes
fill_fours zero m d v i = m
fill_fours (suc n) m d v i =
    let m = fill_word m d v (i + 0) in
    let m = fill_word m d v (i + 1) in
    let m = fill_word m d v (i + 2) in let m = fill_word m d v (i + 3) in fill_fours n m d v (i + 4)

-- Ordinal 41.
unfoldable pub word_fill : Bytes → ℕ → ℕ → ℕ → Bytes
word_fill m d v nbytes =
    let words = nbytes / 4 in
    fill_words (words % 4) (fill_fours (words / 4) m d v 0) d v (4 * (words / 4))

unfoldable pub find_byte : ℕ → Bytes → ℕ → ℕ → ℕ → ℕ
find_byte zero m p target i = null
find_byte (suc n) m p target i =
    if m (p + i) == target then p + i else find_byte n m p target (suc i)

-- Ordinal 10.
unfoldable pub memchr : Bytes → ℕ → ℕ → ℕ → ℕ
memchr m s c n =
    if s == null || is_negative n || n == 0 then null else find_byte n m s (c % 0x100) 0

unfoldable pub compare_bytes : ℕ → Bytes → ℕ → ℕ → ℕ → ℕ
compare_bytes zero m a b i = 0
compare_bytes (suc n) m a b i =
    if m (a + i) == m (b + i)
    then compare_bytes n m a b (suc i)
    else (if ltb (m (a + i)) (m (b + i)) then 0xFFFFFFFF else 1)

-- Ordinal 11.
unfoldable pub memcmp : Bytes → ℕ → ℕ → ℕ → ℕ
memcmp m a b n = if is_negative n then 0 else compare_bytes n m a b 0

-- for (i = first; i < first + n; i++) d[i] = s[i].
unfoldable pub copy_up : ℕ → Bytes → ℕ → ℕ → ℕ → Bytes
copy_up zero m d s i = m
copy_up (suc n) m d s i = copy_up n (update m (d + i) (m (s + i))) d s (suc i)

-- for (i = n; i > 0; i--) d[i - 1] = s[i - 1].
unfoldable pub copy_down : ℕ → Bytes → ℕ → ℕ → Bytes
copy_down zero m d s = m
copy_down (suc n) m d s = copy_down n (update m (d + n) (m (s + n))) d s

-- ((a | b | c) & 3) == 0.
abbrev pub all_aligned : ℕ → ℕ → ℕ → Bool
all_aligned a b c = a % 4 == 0 && b % 4 == 0 && c % 4 == 0

-- Ordinal 12: what it answers, and memory.
unfoldable pub memcpy : Bytes → ℕ → ℕ → ℕ → ℕ × Bytes
memcpy m d s n = (d, if all_aligned d s n then word_copy m d s n else copy_up n m d s 0)

-- Ordinal 13.
unfoldable pub memmove : Bytes → ℕ → ℕ → ℕ → ℕ × Bytes
memmove m d s n =
    (d, if ltb d s then copy_up n m d s 0 else (if ltb s d then copy_down n m d s else m))

unfoldable pub fill_bytes : ℕ → Bytes → ℕ → ℕ → ℕ → Bytes
fill_bytes zero m d v i = m
fill_bytes (suc n) m d v i = fill_bytes n (update m (d + i) v) d v (suc i)

-- Ordinal 14.
unfoldable pub memset : Bytes → ℕ → ℕ → ℕ → ℕ × Bytes
memset m s c n = (
  s,
  if c == 0 && s % 4 == 0 && n % 4 == 0 then word_fill m s 0 n else fill_bytes n m s (c % 0x100) 0,
)

-- Ordinals 15, 16 and 17.
unfoldable pub bcmp : Bytes → ℕ → ℕ → ℕ → ℕ
bcmp m a b n = memcmp m a b n

unfoldable pub bcopy : Bytes → ℕ → ℕ → ℕ → Bytes
bcopy m s d n = (memmove m d s n).1

unfoldable pub bzero : Bytes → ℕ → ℕ → Bytes
bzero m s n = (memset m s 0 n).1
