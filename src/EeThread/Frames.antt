-- ===== src/EeThread/Frames.antt =====
-- What src/kernel/thread.cpp stores of a parked thread is what it brings back.
use ps2bios_rebuild.Common.{
  ℕ, zero, suc, ◌+◌, ◌*◌, ◌≤◌, ◌<◌, ◌==◌, ◌≡◌, ◌≢◌, inl, inr, refl, ◌∙◌, arith, if◌then◌else◌,
  update, false, Bool-cases, lt_cases, ap, add32, sub32,
}
use ps2bios_rebuild.EeThread.Types.{Kernel, block_words, frame_push}
use ps2bios_rebuild.EeThread.Switch.{
  store_words, load_words, park_current, save_caller, resume, set_resume_value,
}

-- The addresses of two words of a frame differ.
word_apart : (to i j : ℕ) → i < 256 → j < 256 → i ≢ j → add32 to (4 * i) ≢ add32 to (4 * j)
word_apart to i j h k ne = omega arith

store_words-outside :
    (memory : ℕ → ℕ) (to : ℕ) (block : ℕ → ℕ) (n j a : ℕ)
    → ((i : ℕ) → j ≤ i → i < j + n → a ≢ add32 to (4 * i))
    → store_words memory to block n j a ≡ memory a
unfolding store_words
store_words-outside memory to block zero j a f = refl
store_words-outside memory to block (suc n) j a f =
    store_words-outside (update memory (add32 to (4 * j)) (block j)) to block n (suc j) a
      (λ i h k. f i (omega arith) (omega arith))
    ∙ ground (arith, f j (omega arith) (omega arith))

store_words-inside :
    (memory : ℕ → ℕ) (to : ℕ) (block : ℕ → ℕ) (n j i : ℕ)
    → j + n ≤ 256
    → j ≤ i
    → i < j + n
    → store_words memory to block n j (add32 to (4 * i)) ≡ block i
unfolding store_words
store_words-inside memory to block zero j i b h k = absurd (omega arith)
store_words-inside memory to block (suc n) j i b h k = elim (lt_cases j i) [
  | inl m ↦
      store_words-inside (update memory (add32 to (4 * j)) (block j)) to block n (suc j) i
        (omega arith) m (omega arith)
  | inr m ↦
      let e : j ≡ i = omega arith in
      store_words-outside (update memory (add32 to (4 * j)) (block j)) to block n (suc j) _
        (λ l p q. word_apart to i l (omega arith) (omega arith) (omega arith))
      ∙ ground (arith, ap block e)
]

load_words-outside :
    (block memory : ℕ → ℕ) (from n j i : ℕ) → i < j → load_words block memory from n j i ≡ block i
unfolding load_words
load_words-outside block memory from zero j i h = refl
load_words-outside block memory from (suc n) j i h =
    load_words-outside (update block j (memory (add32 from (4 * j)))) memory from n (suc j) i
      (omega arith)
    ∙ ground arith

load_words-inside :
    (block memory : ℕ → ℕ) (from n j i : ℕ)
    → j ≤ i
    → i < j + n
    → load_words block memory from n j i ≡ memory (add32 from (4 * i))
unfolding load_words
load_words-inside block memory from zero j i h k = absurd (omega arith)
load_words-inside block memory from (suc n) j i h k = elim (lt_cases j i) [
  | inl m ↦
      load_words-inside (update block j (memory (add32 from (4 * j)))) memory from n (suc j) i m
        (omega arith)
  | inr m ↦
      let e : j ≡ i = omega arith in
      load_words-outside (update block j (memory (add32 from (4 * j)))) memory from n (suc j) i
        (omega arith)
      ∙ ground (arith, ap (λ l. memory (add32 from (4 * l))) e)
]

-- A block that was stored and then loaded is the same block, word by word.
pub load-store :
    (block old memory : ℕ → ℕ) (frame j : ℕ)
    → j < block_words
    → load_words old (store_words memory frame block block_words 0) frame block_words 0 j ≡ block j
load-store block old memory frame j h =
    load_words-inside old _ frame block_words 0 j (omega arith) (omega arith)
    ∙ store_words-inside memory frame block block_words 0 j (omega arith) (omega arith)
        (omega arith)

-- The frame of a parked caller with `answer` in its $v0.
abbrev pub parked : Kernel → ℕ → Kernel
parked k answer = set_resume_value (save_caller k) (save_caller k).current_thread answer

abbrev frame_of : Kernel → ℕ
frame_of k = sub32 (k.syscall_context 116) frame_push

save_caller_lem :
    (k : Kernel)
    → ((save_caller k).current_thread ≡ k.current_thread)
      × (((save_caller k).threads k.current_thread).context ≡ frame_of k)
      × (((save_caller k).threads k.current_thread).resume_pc ≡ k.epc)
      × ((save_caller k).parked_by_interrupt k.current_thread ≡ false)
      × ((save_caller k).memory ≡ store_words k.memory (frame_of k) k.syscall_context block_words 0)
      × ((save_caller k).syscall_context ≡ k.syscall_context)
unfolding save_caller park_current
save_caller_lem k = (refl, ground arith, ground arith, ground arith, refl, refl)

-- A word of the frame of a parked caller.
parked-memory :
    (k : Kernel) (answer j : ℕ)
    → j < block_words
    → (parked k answer).memory (add32 (frame_of k) (4 * j))
      ≡ (if j == 8 then answer else k.syscall_context j)
unfolding set_resume_value
parked-memory k answer j h =
    let s = save_caller_lem k in
    let inside =
      store_words-inside k.memory (frame_of k) k.syscall_context block_words 0 j (omega arith)
        (omega arith) (omega arith) in
    rw (s.0, s.1, s.4)
      elim (Bool-cases (j == 8)) [
        | inl e ↦ let f : j ≡ 8 = ground arith in rw f (ground arith)
        | inr e ↦
            let ne : j ≢ 8 = ground arith in
            ground (arith, inside, word_apart (frame_of k) j 8 (omega arith) (omega arith) ne)
      ]

parked_lem :
    (k : Kernel) (answer : ℕ)
    → (((parked k answer).threads k.current_thread).context ≡ frame_of k)
      × (((parked k answer).threads k.current_thread).resume_pc ≡ k.epc)
      × ((parked k answer).parked_by_interrupt k.current_thread ≡ false)
unfolding set_resume_value
parked_lem k answer = let s = save_caller_lem k in (s.1, s.2, s.3)

-- A caller that was parked and is picked again has its own registers and resume address, and
-- `answer` in $v0, which is also what the dispatcher returns.
pub parked-resume :
    (k : Kernel) (answer : ℕ)
    → let (r, k') = resume (parked k answer) k.current_thread in
      (r ≡ answer)
      × (k'.current_thread ≡ k.current_thread)
      × (k'.epc ≡ k.epc)
      × (k'.restore_full ≡ false)
      × ((j : ℕ)
          → j < block_words
          → k'.syscall_context j ≡ (if j == 8 then answer else k.syscall_context j))
unfolding resume
parked-resume k answer =
    let p = parked_lem k answer in
    (
      rw (p.0) (parked-memory k answer 8 (omega arith)),
      refl,
      p.1,
      p.2,
      λ j h.
          load_words-inside _ (parked k answer).memory _ block_words 0 j (omega arith) (omega arith)
          ∙ rw (p.0) (parked-memory k answer j h),
    )
