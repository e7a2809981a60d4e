-- ===== src/Disassemble/Cover.antt =====
-- What the instructions of a successful disassembly cover.
use nyxstone_tricore_gcc.Base.{
  ℕ, zero, suc, ◌+◌, ◌≤◌, ◌<◌, ◌≡◌, refl, sym, ap, ◌∙◌, inl, inr, true, false, Option, none, some,
  List, [], ◌∷◌, ◌++◌, append_assoc, arith, Bool-cases, length, take, drop, take-append-drop,
  length-take, length-drop, Bytes,
}
use nyxstone_tricore_gcc.Expected.{Expected, value, error}
use nyxstone_tricore_gcc.Decoder.{PrintInsn, Decoded, disasm_one}
use nyxstone_tricore_gcc.Disassemble.{
  Instruction, u64_add, decode_error, may_decode, failed, instruction, prepend, disassemble_loop,
  result_of, do_disassemble,
}

-- A decoder that consumes no more bytes than it is given.
abbrev pub StaysInside : PrintInsn → Type 0
StaysInside print_insn =
    (bytes : Bytes) (addr : ℕ) → (disasm_one print_insn bytes addr).consumed ≤ length bytes

abbrev pub all_bytes : List Instruction → Bytes
all_bytes [] = []
all_bytes (i ∷ is) = i.bytes ++ all_bytes is

-- Each instruction stands where the one before it ends, from offset `off` on; none is empty.
abbrev pub IsConsecutive : ℕ → ℕ → List Instruction → Type 0
IsConsecutive address off [] = Unit
IsConsecutive address off (i ∷ is) =
    (i.address ≡ u64_add address off)
    × (0 < length i.bytes)
    × IsConsecutive address (off + length i.bytes) is

prepend-some :
    (i : Instruction) (o : Option (Expected (List Instruction)))
    → (r : Expected (List Instruction)) × (o ≡ some r)
    → (r : Expected (List Instruction)) × (prepend i o ≡ some r)
prepend-some i none (r, e) = cc
prepend-some i (some (value l)) (r, e) = (value (i ∷ l), refl)
prepend-some i (some (error m)) (r, e) = (error m, refl)

prepend-value :
    (i : Instruction) (o : Option (Expected (List Instruction))) {is : List Instruction}
    → prepend i o ≡ some (value is)
    → (js : List Instruction) × (o ≡ some (value js)) × (is ≡ i ∷ js)
prepend-value i none h = cc
prepend-value i (some (value l)) h = (l, refl, cc)
prepend-value i (some (error m)) h = cc

consumed_pos : (d : Decoded) → failed d ≡ false → 0 < d.consumed
unfolding failed
consumed_pos d h = ground arith

module _ (print_insn : PrintInsn) (address count : ℕ) where
  module _ (fuel off done c : ℕ) (cs : Bytes) where
    abbrev here : Decoded
    here = disasm_one print_insn (c ∷ cs) (u64_add address off)

    abbrev insn : Instruction
    insn = instruction (u64_add address off) here (c ∷ cs)

    loop_stops :
        may_decode count done ≡ false
        → disassemble_loop print_insn address count (suc fuel) off done (c ∷ cs) ≡ some (value [])
    unfolding disassemble_loop
    loop_stops m = rw m

    loop_fails :
        may_decode count done ≡ true
        → failed here ≡ true
        → disassemble_loop print_insn address count (suc fuel) off done (c ∷ cs)
          ≡ some (error (decode_error off))
    unfolding disassemble_loop
    loop_fails m f = rw (m, f)

    loop_goes_on :
        may_decode count done ≡ true
        → failed here ≡ false
        → disassemble_loop print_insn address count (suc fuel) off done (c ∷ cs)
          ≡ prepend insn (
              disassemble_loop print_insn address count fuel
                (off + here.consumed)
                (suc done)
                (drop here.consumed (c ∷ cs)))
    unfolding disassemble_loop
    loop_goes_on m f = rw (m, f)

  -- The loop ends, with one round for each byte.
  pub disassemble_loop_total :
      (fuel off done : ℕ) (bytes : Bytes)
      → length bytes ≤ fuel
      → (r : Expected (List Instruction)) × (disassemble_loop print_insn address count fuel off done
            bytes
          ≡ some r)
  disassemble_loop_total fuel off done [] h = (value [], unfold disassemble_loop in refl)
  disassemble_loop_total zero off done (c ∷ cs) h = absurd (omega arith)
  disassemble_loop_total (suc fuel) off done (c ∷ cs) h =
      elim (Bool-cases (may_decode count done)) [
        | inr stop ↦ (value [], loop_stops fuel off done c cs stop)
        | inl go ↦ elim (Bool-cases (failed (here fuel off done c cs))) [
          | inl bad ↦ (error (decode_error off), loop_fails fuel off done c cs go bad)
          | inr good ↦
              let n = (here fuel off done c cs).consumed in
              let fits : length (drop n (c ∷ cs)) ≤ fuel =
                omega
                  (arith, length-drop n (c ∷ cs), consumed_pos (here fuel off done c cs) good) in
              let (r, e) =
                prepend-some (insn fuel off done c cs) _
                  (disassemble_loop_total fuel (off + n) (suc done) (drop n (c ∷ cs)) fits) in
              (r, loop_goes_on fuel off done c cs go good ∙ e)
        ]
      ]

  -- What a run of the loop leaves: a prefix of the bytes is covered, all if there is no bound, and
  -- no more instructions than the bound still allows.
  pub record Covers (off done : ℕ) (bytes : Bytes) (is : List Instruction) : Type 0 where
    pub rest : Bytes
    pub covered : all_bytes is ++ rest ≡ bytes
    pub consecutive : IsConsecutive address off is
    pub whole : count ≡ 0 → rest ≡ []
    pub bounded : 0 < count → done ≤ count → length is + done ≤ count
    pub full : 0 < count → length is + done < count → rest ≡ []

  Covers-nil : (off done : ℕ) → Covers off done [] []
  Covers-nil off done = record {
    rest = [];
    covered = refl;
    consecutive = tt;
    whole = λ _. refl;
    bounded = λ _ h. omega arith;
    full = λ _ _. refl;
  }

  Covers-stop :
      (off done : ℕ) (bytes : Bytes) → may_decode count done ≡ false → Covers off done bytes []
  Covers-stop off done bytes m = record {
    rest = bytes;
    covered = refl;
    consecutive = tt;
    whole = λ e. absurd (ground arith);
    bounded = λ _ h. omega arith;
    full = λ _ h. absurd (ground arith);
  }

  Covers-cons :
      (off done n : ℕ) (bytes : Bytes) (i : Instruction) (js : List Instruction)
      → may_decode count done ≡ true
      → i.address ≡ u64_add address off
      → i.bytes ≡ take n bytes
      → 0 < n
      → n ≤ length bytes
      → Covers (off + n) (suc done) (drop n bytes) js
      → Covers off done bytes (i ∷ js)
  Covers-cons off done n bytes i js m a b p l c =
      let size : length i.bytes ≡ n = omega (arith, ap length b, length-take n bytes) in
      record {
        rest = c.rest;
        covered =
            append_assoc i.bytes (all_bytes js) c.rest
            ∙ ap (λ t. i.bytes ++ t) c.covered
            ∙ ap (λ t. t ++ drop n bytes) b
            ∙ take-append-drop n bytes;
        consecutive = (a, omega arith, rw size c.consecutive);
        whole = c.whole;
        bounded = λ q h. room q;
        full = λ q h. c.full q (omega arith);
      }
    where
      room : 0 < count → suc (length js) + done ≤ count
      room q = let more : done < count = ground arith in omega (arith, c.bounded q more)

  disassemble_loop-Covers :
      StaysInside print_insn
      → (fuel off done : ℕ) (bytes : Bytes) (is : List Instruction)
      → disassemble_loop print_insn address count fuel off done bytes ≡ some (value is)
      → Covers off done bytes is
  disassemble_loop-Covers inside fuel off done [] is h =
      let none_left : is ≡ [] = unfold disassemble_loop in cc in rw none_left (Covers-nil off done)
  disassemble_loop-Covers inside zero off done (c ∷ cs) is h = unfold disassemble_loop in cc
  disassemble_loop-Covers inside (suc fuel) off done (c ∷ cs) is h =
      elim (Bool-cases (may_decode count done)) [
        | inr stop ↦
            let none_left : is ≡ [] = cc (loop_stops fuel off done c cs stop) in
            rw none_left (Covers-stop off done (c ∷ cs) stop)
        | inl go ↦ elim (Bool-cases (failed (here fuel off done c cs))) [
          | inl bad ↦ cc (loop_fails fuel off done c cs go bad)
          | inr good ↦
              let d = here fuel off done c cs in
              let (js, rest, e) =
                prepend-value (insn fuel off done c cs) _
                  (sym (loop_goes_on fuel off done c cs go good) ∙ h) in
              rw e (
                Covers-cons off done d.consumed (c ∷ cs) (insn fuel off done c cs) js go
                  (unfold instruction in refl) (unfold instruction in refl) (consumed_pos d good)
                  (inside (c ∷ cs) (u64_add address off))
                  (disassemble_loop-Covers inside fuel (off + d.consumed) (suc done)
                    (drop d.consumed (c ∷ cs)) js rest))
        ]
      ]

do_disassemble-loop :
    (print_insn : PrintInsn) (bytes : Bytes) (address count : ℕ) {r : Expected (List Instruction)}
    → disassemble_loop print_insn address count (length bytes) 0 0 bytes ≡ some r
    → do_disassemble print_insn bytes address count ≡ r
do_disassemble-loop print_insn bytes address count e = unfold do_disassemble in ap result_of e

-- If the decoder never consumes more bytes than it is given, a successful disassembly with a bound
-- of 0 covers the whole input: the instructions' bytes, in order, are the input, each instruction has
-- a byte or more, and its address is the start address plus the bytes before it, modulo 2 ^ 64. With
-- another bound they are a prefix of the input, at most as many as the bound says, and fewer than
-- that only if the whole input is covered.
pub do_disassemble-Covers :
    (print_insn : PrintInsn) (bytes : Bytes) (address count : ℕ) {is : List Instruction}
    → StaysInside print_insn
    → do_disassemble print_insn bytes address count ≡ value is
    → Covers print_insn address count 0 0 bytes is
do_disassemble-Covers print_insn bytes address count {is} inside h =
    let (r, e) =
      disassemble_loop_total print_insn address count (length bytes) 0 0 bytes (omega arith) in
    let ran : r ≡ value is = sym (do_disassemble-loop print_insn bytes address count e) ∙ h in
    disassemble_loop-Covers print_insn address count inside (length bytes) 0 0 bytes is
      (e ∙ ap some ran)
