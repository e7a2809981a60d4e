-- ===== src/GlueLayer/Capture/Log.antt =====
-- The log of a capture holds what was written, and its buffer has room for it.
use nyxstone_tricore_gcc.Base.{
  ℕ, zero, suc, ◌+◌, ◌*◌, ◌≤◌, ◌<◌, ◌≡◌, refl, sym, ap, ◌∙◌, ◌⊎◌, inl, inr, true, false, List, [],
  ◌∷◌, ◌++◌, append-nil, append_assoc, arith, ltb, ◌==◌, if◌then◌else◌, Bool-cases, length,
  length-append, Bytes, c_str,
}
use nyxstone_tricore_gcc.GlueLayer.Capture.{
  Growbuf, grow, grown, growbuf_append, Capture, begin_capture, write, write_all, end_capture,
}

-- Enough rounds reach the size that is wanted.
grow_enough : (fuel want nc : ℕ) → 0 < nc → want ≤ nc + fuel → want ≤ grow fuel want nc
unfolding grow
grow_enough zero want nc p h = omega arith
grow_enough (suc fuel) want nc p h = elim (Bool-cases (ltb nc want)) [
  | inl e ↦ rw e (grow_enough fuel want (nc * 2) (omega arith) (omega arith))
  | inr e ↦ rw e (ground arith)
]

grown_enough : (want cap : ℕ) → want ≤ grown want cap
unfolding grown
grown_enough want cap = elim (Bool-cases (ltb cap want)) [
  | inl e ↦
      rw e (grow_enough want want (if cap == 0 then 256 else cap) (ground arith) (omega arith))
  | inr e ↦ rw e (ground arith)
]

-- The text with its NUL fits.
abbrev pub HasRoom : Growbuf → Type 0
HasRoom b = (b.text ≡ []) ⊎ (length b.text < b.cap)

abbrev pub joined : List Bytes → Bytes
joined [] = []
joined (t ∷ ts) = t ++ joined ts

growbuf_append-HasRoom : (b : Growbuf) (t : Bytes) → HasRoom (growbuf_append b t)
unfolding growbuf_append
growbuf_append-HasRoom b t =
    inr (omega (arith, length-append b.text t, grown_enough (length b.text + length t + 1) b.cap))

-- While a capture is active, all writes are appended to the log, and nothing reaches the process's
-- own stream.
abbrev Logged : List Bytes → Bytes → Capture × Bytes → Type 0
Logged ts before (c, out) = (c.log.text ≡ before ++ joined ts) × (c.active ≡ true) × (out ≡ [])

write_all-Logged :
    (ts : List Bytes) (b : Growbuf)
    → Logged ts b.text (write_all ts (record { log = b; active = true }))
unfolding write_all write growbuf_append
write_all-Logged [] b = (sym (append-nil b.text), refl, refl)
write_all-Logged (t ∷ ts) b =
    let (text, active, out) = write_all-Logged ts (growbuf_append b t) in
    (text ∙ append_assoc b.text t (joined ts), active, out)

write_all-HasRoom :
    (ts : List Bytes) (b : Growbuf)
    → HasRoom b
    → HasRoom (write_all ts (record { log = b; active = true })).0.log
unfolding write_all write
write_all-HasRoom [] b h = h
write_all-HasRoom (t ∷ ts) b h =
    write_all-HasRoom ts (growbuf_append b t) (growbuf_append-HasRoom b t)

not_logged : (ts : List Bytes) (c : Capture) → c.active ≡ false → (write_all ts c).1 ≡ joined ts
unfolding write_all write
not_logged [] c e = refl
not_logged (t ∷ ts) c e = simp e (ap (λ out. t ++ out) (not_logged ts c e))

-- What is captured between `begin_capture` and `end_capture` is what is written between them, up
-- to its first NUL, the buffer has room for it, and nothing of it reaches the process's own stream;
-- after that, writes do.
pub end_capture-write_all :
    (ts after : List Bytes) (c : Capture)
    → let (c', out) = write_all ts (begin_capture c) in
      let (text, c'') = end_capture c' in
      (text ≡ c_str (joined ts))
      × HasRoom c'.log
      × (out ≡ [])
      × ((write_all after c'').1 ≡ joined after)
unfolding end_capture begin_capture
end_capture-write_all ts after c =
    let b : Growbuf = record { text = []; cap = c.log.cap } in
    let (text, active, out) = write_all-Logged ts b in
    (ap c_str text, write_all-HasRoom ts b (inl refl), out, not_logged after _ refl)
