-- ===== src/Sysclib/Strings.antt =====
-- The string operations of src/iop/sysclib.cpp, ordinals 20 to 34. A loop that runs to the end of
-- a string has fuel, and `none` is that it ran out; an answer of 0 is the null pointer.
use ps2bios_rebuild.Common.{
  ℕ, zero, suc, ◌+◌, ◌%◌, not, ◌&&◌, ◌||◌, ltb, ◌==◌, if◌then◌else◌, update, sub32, Option, none,
  some,
}
use ps2bios_rebuild.Sysclib.Memory.{Bytes, null, is_negative, fill_bytes}

-- The address of the NUL behind a string.
unfoldable pub string_end : ℕ → Bytes → ℕ → Option ℕ
string_end zero m s = none
string_end (suc n) m s = let rest = string_end n m (suc s) in if m s == 0 then some s else rest

unfoldable pub strlen_from : ℕ → Bytes → ℕ → ℕ → Option ℕ
strlen_from zero m s n = none
strlen_from (suc fuel) m s n =
    let rest = strlen_from fuel m s (suc n) in if m (s + n) == 0 then some n else rest

-- Ordinal 27.
unfoldable pub strlen : ℕ → Bytes → ℕ → Option ℕ
strlen fuel m s = if s == null then some 0 else strlen_from fuel m s 0

unfoldable pub strchr_from : ℕ → Bytes → ℕ → ℕ → Option ℕ
strchr_from zero m s target = none
strchr_from (suc fuel) m s target =
    let rest = strchr_from fuel m (suc s) target in
    if m s == target then some s else (if m s == 0 then some null else rest)

-- Ordinals 21 and 25.
unfoldable pub strchr : ℕ → Bytes → ℕ → ℕ → Option ℕ
strchr fuel m s c = if s == null then some null else strchr_from fuel m s (c % 0x100)

unfoldable pub strrchr_from : ℕ → Bytes → ℕ → ℕ → ℕ → Option ℕ
strrchr_from zero m s target found = none
strrchr_from (suc fuel) m s target found =
    let found = if m s == target then s else found in
    let rest = strrchr_from fuel m (suc s) target found in if m s == 0 then some found else rest

-- Ordinals 26 and 32.
unfoldable pub strrchr : ℕ → Bytes → ℕ → ℕ → Option ℕ
strrchr fuel m s c = if s == null then some null else strrchr_from fuel m s (c % 0x100) null

-- A byte as a signed char, in an `int`.
abbrev pub signed_char : ℕ → ℕ
signed_char b = if ltb b 0x80 then b else b + 0xFFFFFF00

abbrev pub difference : ℕ → ℕ → ℕ
difference a b = sub32 (signed_char a) (signed_char b)

-- The answer for arguments of which one is null.
unfoldable pub compare_null : ℕ → ℕ → Option ℕ
compare_null a b =
    if a == null && b == null
    then some 0
    else (if a == null then some 0xFFFFFFFF else (if b == null then some 1 else none))

unfoldable pub strcmp_from : ℕ → Bytes → ℕ → ℕ → Option ℕ
strcmp_from zero m a b = none
strcmp_from (suc fuel) m a b =
    let rest = strcmp_from fuel m (suc a) (suc b) in
    if not (m a == m b) || m a == 0 then some (difference (m a) (m b)) else rest

-- Ordinal 22.
unfoldable pub strcmp : ℕ → Bytes → ℕ → ℕ → Option ℕ
strcmp fuel m a b = elim (compare_null a b) [ some r ↦ some r | none ↦ strcmp_from fuel m a b ]

unfoldable pub strncmp_from : ℕ → Bytes → ℕ → ℕ → ℕ → ℕ
strncmp_from zero m a b i = 0
strncmp_from (suc n) m a b i =
    if not (m (a + i) == m (b + i)) || m (a + i) == 0
    then difference (m (a + i)) (m (b + i))
    else strncmp_from n m a b (suc i)

-- Ordinal 29.
unfoldable pub strncmp : Bytes → ℕ → ℕ → ℕ → ℕ
strncmp m a b n = elim (compare_null a b) [
  | some r ↦ r
  | none ↦ if is_negative n then 0 else strncmp_from n m a b 0
]

-- while ((*d++ = *src++) != '\0')
unfoldable pub copy_string : ℕ → Bytes → ℕ → ℕ → Option Bytes
copy_string zero m d s = none
copy_string (suc fuel) m d s =
    let copied = update m d (m s) in
    let rest = copy_string fuel copied (suc d) (suc s) in if m s == 0 then some copied else rest

abbrev pub answering : ℕ → Option Bytes → Option (ℕ × Bytes)
answering d none = none
answering d (some m) = some (d, m)

-- Ordinal 23.
unfoldable pub strcpy : ℕ → Bytes → ℕ → ℕ → Option (ℕ × Bytes)
strcpy fuel m d s =
    if d == null || s == null then some (null, m) else answering d (copy_string fuel m d s)

-- for (; i < n && src[i] != '\0'; i++) dst[i] = src[i], and the zeros behind it.
unfoldable pub strncpy_from : ℕ → Bytes → ℕ → ℕ → ℕ → Bytes
strncpy_from zero m d s i = m
strncpy_from (suc n) m d s i =
    if m (s + i) == 0
    then fill_bytes (suc n) m d 0 i
    else strncpy_from n (update m (d + i) (m (s + i))) d s (suc i)

-- Ordinal 30.
unfoldable pub strncpy : Bytes → ℕ → ℕ → ℕ → ℕ × Bytes
strncpy m d s n = if d == null || s == null then (null, m) else (d, strncpy_from n m d s 0)

-- Ordinal 20.
unfoldable pub strcat : ℕ → Bytes → ℕ → ℕ → Option (ℕ × Bytes)
strcat fuel m d s = if d == null || s == null then some (null, m) else elim (string_end fuel m d) [
  | none ↦ none
  | some dend ↦ elim (string_end fuel m s) [
    | none ↦ none
    | some send ↦ if dend == send then some (null, m) else answering d (copy_string fuel m dend s)
  ]
]

unfoldable pub strncat_from : ℕ → Bytes → ℕ → ℕ → ℕ → Bytes
strncat_from zero m d s i = update m (d + i) 0
strncat_from (suc n) m d s i =
    if m (s + i) == 0
    then update m (d + i) 0
    else strncat_from n (update m (d + i) (m (s + i))) d s (suc i)

-- Ordinal 28.
unfoldable pub strncat : ℕ → Bytes → ℕ → ℕ → ℕ → Option (ℕ × Bytes)
strncat fuel m d s n = elim (string_end fuel m d) [
  | none ↦ none
  | some dend ↦ some (d, strncat_from n m dend s 0)
]
