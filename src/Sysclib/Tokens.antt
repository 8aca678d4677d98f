-- ===== src/Sysclib/Tokens.antt =====
-- The searches for sets of characters of src/iop/sysclib.cpp, and `strtok`.
use ps2bios_rebuild.Common.{
  length, ℕ, zero, suc, ◌+◌, Bool, true, false, not, ◌&&◌, ◌==◌, if◌then◌else◌, update, Option,
  none, some,
}
use ps2bios_rebuild.Sysclib.Memory.{Bytes, null}

-- Whether the string at `set` has the character.
unfoldable pub byte_in_set : ℕ → Bytes → ℕ → ℕ → Option Bool
byte_in_set zero m c set = none
byte_in_set (suc fuel) m c set =
    let rest = byte_in_set fuel m c (suc set) in
    if m set == 0 then some false else (if c == m set then some true else rest)

-- while (s[n] != '\0' && (s[n] is in the set) == member) n++, with fuel for both loops.
unfoldable pub span_from : ℕ → ℕ → Bool → Bytes → ℕ → ℕ → ℕ → Option ℕ
span_from zero fuel member m s set n = none
span_from (suc left) fuel member m s set n =
    let rest = span_from left fuel member m s set (suc n) in
    if m (s + n) == 0 then some n else elim (byte_in_set fuel m (m (s + n)) set) [
      | none ↦ none
      | some found ↦ if (if member then found else not found) then rest else some n
    ]

-- Ordinals 24 and 33.
unfoldable pub strcspn : ℕ → Bytes → ℕ → ℕ → Option ℕ
strcspn fuel m s reject = span_from fuel fuel false m s reject 0

unfoldable pub strspn : ℕ → Bytes → ℕ → ℕ → Option ℕ
strspn fuel m s accept = span_from fuel fuel true m s accept 0

unfoldable pub strpbrk_from : ℕ → ℕ → Bytes → ℕ → ℕ → Option ℕ
strpbrk_from zero fuel m s accept = none
strpbrk_from (suc left) fuel m s accept =
    let rest = strpbrk_from left fuel m (suc s) accept in
    if m s == 0 then some null else elim (byte_in_set fuel m (m s) accept) [
      | none ↦ none
      | some found ↦ if found then some s else rest
    ]

-- Ordinal 31.
unfoldable pub strpbrk : ℕ → Bytes → ℕ → ℕ → Option ℕ
strpbrk fuel m s accept = strpbrk_from fuel fuel m s accept

-- Whether the needle stands at h.
unfoldable pub starts_with : ℕ → Bytes → ℕ → ℕ → Option Bool
starts_with zero m h n = none
starts_with (suc fuel) m h n =
    let rest = starts_with fuel m (suc h) (suc n) in
    if not (m h == 0) && not (m n == 0) && m h == m n then rest else some (m n == 0)

unfoldable pub strstr_from : ℕ → ℕ → Bytes → ℕ → ℕ → Option ℕ
strstr_from zero fuel m haystack needle = none
strstr_from (suc left) fuel m haystack needle =
    let rest = strstr_from left fuel m (suc haystack) needle in
    if m haystack == 0 then some null else elim (starts_with fuel m haystack needle) [
      | none ↦ none
      | some found ↦ if found then some haystack else rest
    ]

-- Ordinal 34.
unfoldable pub strstr : ℕ → Bytes → ℕ → ℕ → Option ℕ
strstr fuel m haystack needle =
    if m needle == 0 then some haystack else strstr_from fuel fuel m haystack needle

-- The token that ends at s, with memory and the state behind it.
unfoldable pub cut_token : Bytes → ℕ → ℕ → ℕ × (Bytes × ℕ)
cut_token m start s = if m s == 0 then (start, (m, null)) else (start, (update m s 0, s + 1))

-- Ordinal 35: what it answers, memory, and g_strtok_state.
unfoldable pub strtok : ℕ → Bytes → ℕ → ℕ → ℕ → Option (ℕ × (Bytes × ℕ))
strtok fuel m state s delim =
    let s = if s == null then state else s in
    if s == null then some (null, (m, state)) else elim (span_from fuel fuel true m s delim 0) [
      | none ↦ none
      | some skipped ↦
          let start = s + skipped in
          if m start == 0
          then some (null, (m, null))
          else elim (span_from fuel fuel false m start delim 0) [
            | none ↦ none
            | some length ↦ some (cut_token m start (start + length))
          ]
    ]
