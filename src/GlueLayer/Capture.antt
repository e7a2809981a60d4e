-- ===== src/GlueLayer/Capture.antt =====
-- src/nyxstone_glue.c, `growbuf_append` and the capture of what gas writes to `stderr`. Memory is
-- not exhausted, so a capacity that is doubled does not pass 2 ^ 64.
pub mod Log
use nyxstone_tricore_gcc.Base.{
  ℕ, zero, suc, ◌+◌, ◌*◌, Bool, true, false, List, [], ◌∷◌, ◌++◌, ltb, ◌==◌, if◌then◌else◌, length,
  Bytes, c_str,
}

-- The bytes up to `len`; the buffer is NULL while `cap` is 0.
pub record Growbuf : Type 0 where
  pub text : Bytes
  pub cap : ℕ

-- `while (nc < want) nc *= 2`
unfoldable pub grow : ℕ → ℕ → ℕ → ℕ
grow zero want nc = nc
grow (suc fuel) want nc = let more = grow fuel want (nc * 2) in if ltb nc want then more else nc

unfoldable pub grown : ℕ → ℕ → ℕ
unfolding grow
grown want cap = if ltb cap want then grow want want (if cap == 0 then 256 else cap) else cap

unfoldable pub growbuf_append : Growbuf → Bytes → Growbuf
unfolding grown
growbuf_append b piece = record {
  text = b.text ++ piece;
  cap = grown (length b.text + length piece + 1) b.cap;
}

-- The log, and whether `stderr` is the stream that appends to it.
pub record Capture : Type 0 where
  pub log : Growbuf
  pub active : Bool

unfoldable pub begin_capture : Capture → Capture
begin_capture c = record { log = record { text = []; cap = c.log.cap }; active = true }

-- One write to `stderr`: the state, and what reaches the process's own stream.
unfoldable pub write : Bytes → Capture → Capture × Bytes
unfolding growbuf_append
write piece c = if c.active then (record c { log = growbuf_append c.log piece }, []) else (c, piece)

unfoldable pub write_all : List Bytes → Capture → Capture × Bytes
unfolding write
write_all [] c = (c, [])
write_all (piece ∷ more) c =
    let (c', out) = write piece c in let (c'', rest) = write_all more c' in (c'', out ++ rest)

-- The text as a C string.
unfoldable pub end_capture : Capture → Bytes × Capture
unfolding c_str
end_capture c = (c_str c.log.text, record c { active = false })
