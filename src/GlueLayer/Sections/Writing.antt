-- ===== src/GlueLayer/Sections/Writing.antt =====
-- Writing behind what is written already: `memcpy` and the loop for fill bytes.
use nyxstone_tricore_gcc.Base.{
  ℕ, zero, suc, ◌+◌, ◌*◌, ◌≡◌, refl, sym, ap, ◌∙◌, [], ◌∷◌, ◌++◌, append-nil, append_assoc, arith,
  length, length-append, Bytes,
}
use nyxstone_tricore_gcc.GlueLayer.Encode.{put_bytes}
use nyxstone_tricore_gcc.GlueLayer.Sections.{fill_loop}

-- `n` times the pattern.
abbrev pub repeated : ℕ → Bytes → Bytes
repeated zero pat = []
repeated (suc n) pat = pat ++ repeated n pat

pub length-repeated : (n : ℕ) (pat : Bytes) → length (repeated n pat) ≡ n * length pat
length-repeated zero pat = omega arith
length-repeated (suc n) pat =
    omega (arith, length-append pat (repeated n pat), length-repeated n pat)

-- The buffer holds `done` and `bs`, and `k` bytes that are still to be written.
abbrev pub Wrote : Bytes → Bytes → ℕ → Bytes → Type 0
Wrote done bs k out = (old : Bytes) × (length old ≡ k) × (out ≡ (done ++ bs) ++ old)

pub put_bytes-Wrote :
    (done bs old : Bytes) (k : ℕ)
    → length old ≡ length bs + k
    → Wrote done bs k (put_bytes (length done) bs (done ++ old))
unfolding put_bytes
put_bytes-Wrote [] [] [] k h = ([], omega arith, refl)
put_bytes-Wrote [] [] (c ∷ old) k h = (c ∷ old, omega arith, refl)
put_bytes-Wrote [] (b ∷ bs) [] k h = absurd (omega arith)
put_bytes-Wrote [] (b ∷ bs) (c ∷ old) k h =
    let (rest, size, e) = put_bytes-Wrote [] bs old k (omega arith) in
    (rest, size, ap (λ r. b ∷ r) e)
put_bytes-Wrote (c ∷ done) bs old k h =
    let (rest, size, e) = put_bytes-Wrote done bs old k h in (rest, size, ap (λ r. c ∷ r) e)

pub fill_loop-Wrote :
    (n : ℕ) (done pat old : Bytes) (k : ℕ)
    → length old ≡ n * length pat + k
    → Wrote done (repeated n pat) k (fill_loop n (length done) pat (done ++ old))
unfolding fill_loop
fill_loop-Wrote zero done pat old k h =
    (old, omega arith, ap (λ r. r ++ old) (sym (append-nil done)))
fill_loop-Wrote (suc n) done pat old k h =
    let (old', size, e) = put_bytes-Wrote done pat old (n * length pat + k) (omega arith) in
    let (old'', size', e') = fill_loop-Wrote n (done ++ pat) pat old' k size in
    let at : length done + length pat ≡ length (done ++ pat) = sym (length-append done pat) in
    let steps : fill_loop n (length done + length pat) pat
          (put_bytes (length done) pat (done ++ old))
        ≡ fill_loop n (length (done ++ pat)) pat ((done ++ pat) ++ old') =
      λ i. fill_loop n (at i) pat (e i) in
    (old'', size', steps ∙ e' ∙ ap (λ r. r ++ old'') (append_assoc done pat (repeated n pat)))

pub Wrote-fits :
    (done bs old : Bytes) (k : ℕ)
    → length old ≡ length bs + k
    → length (done ++ old) ≡ length done + length bs + k
Wrote-fits done bs old k h = omega (arith, length-append done old)

pub nothing-Wrote :
    (done bs old : Bytes) (k : ℕ)
    → length bs ≡ 0
    → length old ≡ length bs + k
    → Wrote done bs k (done ++ old)
nothing-Wrote done [] old k e h = (old, omega arith, ap (λ r. r ++ old) (sym (append-nil done)))
nothing-Wrote done (b ∷ bs) old k e h = absurd (omega arith)
