-- ===== src/Sysclib/Echo.antt =====
-- `sprintf` of src/iop/sysclib.cpp with a format that has no directive copies it.
use ps2bios_rebuild.Common.{
  ℕ, zero, suc, ◌+◌, ◌<◌, ◌≡◌, ◌≢◌, ◌==◌, ◌∙◌, refl, ap, arith, true, false, ltb, some, List, [],
  ◌∷◌, update, length,
}
use ps2bios_rebuild.Sysclib.Memory.{Bytes, null}
use ps2bios_rebuild.Sysclib.Text.{IsString, IsString-agree, CopiesUp}
use ps2bios_rebuild.Sysclib.Print.{PrintState, emit_char, emit_all, sprintf_writer}
use ps2bios_rebuild.Sysclib.Formatter.{print_from, prnt, sprintf}
use ps2bios_rebuild.Sysclib.Written.{AllChars, ended, written}

-- No character is a '%'.
abbrev pub IsPlain : List ℕ → Type 0
IsPlain [] = Unit {0}
IsPlain (c ∷ cs) = (c ≢ 37) × IsPlain cs

abbrev writing : Bytes → ℕ → ℕ → PrintState (Bytes × ℕ)
writing m pos total = record { context = (m, pos); total = total }

writes :
    (m : Bytes) (pos total c : ℕ)
    → c < 0x100
    → emit_char sprintf_writer (writing m pos total) c
      ≡ writing (update m pos c) (suc pos) (suc total)
unfolding emit_char sprintf_writer
writes m pos total c h = let f : ltb c 0x100 ≡ true = ground arith in rw f refl

emit_all_total :
    (m : Bytes) (pos total : ℕ) (cs : List ℕ)
    → AllChars cs
    → (emit_all sprintf_writer (writing m pos total) cs).total ≡ total + length cs
unfolding emit_all
emit_all_total m pos total [] a = omega arith
emit_all_total m pos total (c ∷ cs) a =
    ap (λ x. (emit_all sprintf_writer x cs).total) (writes m pos total c a.1)
    ∙ emit_all_total (update m pos c) (suc pos) (suc total) cs a.2
    ∙ omega arith

print_from-plain :
    (fuel : ℕ) (m : Bytes) (pos total p cursor : ℕ) (cs : List ℕ)
    → IsString m p cs
    → IsPlain cs
    → AllChars cs
    → length cs < fuel
    → CopiesUp pos p (length cs)
    → print_from sprintf_writer fuel (writing m pos total) p cursor
      ≡ some (emit_all sprintf_writer (writing m pos total) cs)
unfolding print_from emit_all
print_from-plain zero m pos total p cursor cs v n a h o = absurd (omega arith)
print_from-plain (suc fuel) m pos total p cursor [] v n a h o =
    let e : (m p == 0) ≡ true = ground arith in rw (print_from, e) refl
print_from-plain (suc fuel) m pos total p cursor (c ∷ cs) v n a h o =
    let e : (m p == 0) ≡ false = ground arith in
    let f : (m p == 37) ≡ false = ground arith in
    let u = update m pos c in
    let w : IsString u (suc p) cs = IsString-agree m u (suc p) cs (λ i k l. grind arith) v.2 in
    let g = writes m pos total c a.1 in
    rw (print_from, e, f, v.0, g)
      (print_from-plain fuel u (suc pos) (suc total) (suc p) cursor cs w n.1 a.2 (omega arith)
        (grind arith))

first_mark : (m : Bytes) (buf : ℕ) → sprintf_writer (m, buf) 0x200 ≡ (update m buf 0, buf)
unfolding sprintf_writer
first_mark m buf = refl

-- `sprintf` with a format that has no '%' answers its length and leaves the format's text as a
-- string in the buffer, and what is before the buffer as it was, with fuel for the text. The format
-- is not at null, and the buffer does not start in it.
pub sprintf-plain :
    (fuel : ℕ) (m : Bytes) (buf fmt args : ℕ) (cs : List ℕ)
    → fmt ≢ null
    → IsString m fmt cs
    → IsPlain cs
    → AllChars cs
    → length cs < fuel
    → CopiesUp buf fmt (length cs)
    → (u : Bytes) × (sprintf fuel m buf fmt args ≡ some (length cs, u))
      × IsString u buf cs
      × ((a : ℕ) → a < buf → u a ≡ m a)
unfolding sprintf prnt ended
sprintf-plain fuel m buf fmt args cs ne v n a h o =
    let e : (fmt == null) ≡ false = ground arith in
    let marked = update m buf 0 in
    let w : IsString marked fmt cs = IsString-agree m marked fmt cs (λ i k l. grind arith) v in
    let mark : sprintf_writer (m, buf) 0x200 ≡ (marked, buf) = first_mark m buf in
    let g = print_from-plain fuel marked buf 0 fmt args cs w n a h o in
    let t : (emit_all sprintf_writer (writing marked buf 0) cs).total ≡ length cs =
      emit_all_total marked buf 0 cs a ∙ omega arith in
    let s = written marked buf 0 cs a in
    (
      ended marked buf 0 cs,
      rw (sprintf, prnt, e, mark, g, t) refl,
      s.0,
      λ i k. s.1 i k ∙ ground arith,
    )
