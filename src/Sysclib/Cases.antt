-- ===== src/Sysclib/Cases.antt =====
-- The case operations of src/iop/sysclib.cpp undo one another.
use ps2bios_rebuild.Common.{ℕ, ◌≡◌, ◌≢◌, ◌≤◌, ◌<◌, arith, if◌then◌else◌, add32, sub32, ◌∙◌, ap}
use ps2bios_rebuild.Sysclib.Ctype.{
  Flags, between, classify, ctype_storage, ctype_entry, toupper, tolower,
}

toupper_lem :
    (beyond : ℕ → Flags) (c : ℕ)
    → c < 0xFF
    → toupper beyond c ≡ (if between 97 c 122 then sub32 c 32 else c)
unfolding toupper ctype_entry ctype_storage classify
toupper_lem beyond c h = ground arith

tolower_lem :
    (beyond : ℕ → Flags) (c : ℕ)
    → c < 0xFF
    → tolower beyond c ≡ (if between 65 c 90 then add32 c 32 else c)
unfolding tolower ctype_entry ctype_storage classify
tolower_lem beyond c h = ground arith

-- On the characters of the table, folding to one case and then to the other is folding to the other
-- at once, and folding up changes the 26 lower-case letters and nothing else.
pub case_folding :
    (beyond : ℕ → Flags) (c : ℕ)
    → c < 0xFF
    → (tolower beyond (toupper beyond c) ≡ tolower beyond c)
      × (toupper beyond (tolower beyond c) ≡ toupper beyond c)
      × (toupper beyond c ≢ c → (97 ≤ c) × (c ≤ 122) × (tolower beyond (toupper beyond c) ≡ c))
case_folding beyond c h =
    let u = if between 97 c 122 then sub32 c 32 else c in
    let l = if between 65 c 90 then add32 c 32 else c in
    let hu : u < 0xFF = ground arith in
    let hl : l < 0xFF = ground arith in
    let f = toupper_lem beyond c h in
    let g = tolower_lem beyond c h in
    let f' = ap (tolower beyond) f ∙ tolower_lem beyond u hu in
    let g' = ap (toupper beyond) g ∙ toupper_lem beyond l hl in
    (
      f' ∙ ground (arith, g),
      g' ∙ ground (arith, f),
      λ ne. (ground (arith, f), ground (arith, f), f' ∙ ground (arith, f)),
    )
