-- ===== src/GlueLayer/Sections.antt =====
-- src/nyxstone_glue.c, the passes over the frags of the text section: their sizes, `layout`,
-- `finalize_align_org` and `nyxstone_glue_extract_text_bytes`. Addresses are `addressT`, of 64 bits.
pub mod Padding
pub mod Finalize
pub mod Layout
pub mod Writing
pub mod Extract
pub mod Image
use nyxstone_tricore_gcc.Base.{
  ℕ, zero, suc, ◌+◌, ◌-◌, ◌*◌, ◌^◌, bit_and, Bool, true, false, not, ◌&&◌, ◌||◌, Option, none, some,
  List, [], ◌∷◌, ◌++◌, ltb, ◌==◌, if◌then◌else◌, length, take, drop, replicate, Bytes, ℤ, pos,
  negsuc, to_unsigned,
}
use nyxstone_tricore_gcc.Gas.{FragType, rs_fill, rs_align, rs_align_code, rs_org, Frag, Chain}
use nyxstone_tricore_gcc.Disassemble.{u64_add}
use nyxstone_tricore_gcc.GlueLayer.Encode.{put_bytes, signed64}

abbrev pub is_fill : FragType → Bool
is_fill rs_fill = true
is_fill _ = false

abbrev pub count_of : ℤ → ℕ
count_of (pos n) = n
count_of (negsuc n) = 0

-- `(boundary - (off & (boundary - 1))) & (boundary - 1)`
unfoldable pub align_pad : ℕ → ℕ → ℕ
align_pad p off = bit_and (2 ^ p - bit_and off (2 ^ p - 1)) (2 ^ p - 1)

-- The max-skip, if there is one.
unfoldable pub skipped : ℕ → ℕ → ℕ
skipped max pad = if not (max == 0) && ltb max pad then 0 else pad

-- `for (i = 0; i < fill; i += var)`, `n` rounds of it.
unfoldable pub fill_loop : ℕ → ℕ → Bytes → Bytes → Bytes
unfolding put_bytes
fill_loop zero at pat out = out
fill_loop (suc n) at pat out = fill_loop n (at + length pat) pat (put_bytes at pat out)

module _ {Symbol : Type 0} where
  -- The frags, chain by chain.
  abbrev pub all_frags : List (Chain Symbol) → List (Frag Symbol)
  all_frags [] = []
  all_frags (fc ∷ fcs) = fc.frags ++ all_frags fcs

  unfoldable pub frag_fix_size : Frag Symbol → ℕ
  frag_fix_size fr = elim fr.open_fix [ none ↦ fr.fix | some n ↦ n ]

  -- `fr_offset` repetitions of `fr_var` bytes, if both are positive. The product is below 2 ^ 64.
  unfoldable pub frag_fill_size : Frag Symbol → ℕ
  frag_fill_size fr = if is_fill fr.kind then count_of fr.offset * fr.var else 0

  -- The frags with their addresses from `addr` on, and the address behind them.
  unfoldable pub layout_frags : ℕ → List (Frag Symbol) → List (Frag Symbol) × ℕ
  unfolding frag_fix_size frag_fill_size
  layout_frags addr [] = ([], addr)
  layout_frags addr (fr ∷ frs) =
      let (rest, end) = layout_frags (u64_add addr (frag_fix_size fr + frag_fill_size fr)) frs in
      (record fr { address = addr } ∷ rest, end)

  unfoldable pub layout : ℕ → List (Chain Symbol) → List (Chain Symbol)
  unfolding layout_frags
  layout addr [] = []
  layout addr (fc ∷ fcs) =
      let (frs, end) = layout_frags addr fc.frags in record fc { frags = frs } ∷ layout end fcs

  -- The frag that is to be filled with `pad` bytes; `fr_offset` is signed.
  unfoldable pub padded : ℕ → Frag Symbol → Frag Symbol
  unfolding signed64
  padded pad fr = record fr { kind = rs_fill; offset = signed64 pad; var = 1 }

  -- One round: the frag, its pad, and whether `.org` moves backwards. `value` is
  -- `S_GET_VALUE`; no frag that this layer makes for `.org` has a symbol.
  module _ (value : Symbol → ℕ) where
    unfoldable pub org_target : Frag Symbol → ℕ
    unfolding to_unsigned
    org_target fr =
        u64_add (to_unsigned 64 fr.offset) (elim fr.symbol [ none ↦ 0 | some s ↦ value s ])

    unfoldable pub finalize_kind : FragType → ℕ → Frag Symbol → Frag Symbol × ℕ × Bool
    unfolding frag_fill_size align_pad skipped padded org_target
    finalize_kind rs_align off fr =
        let pad = skipped fr.subtype (align_pad (count_of fr.offset) off) in
        (padded pad fr, pad, false)
    finalize_kind rs_align_code off fr =
        let pad = skipped fr.subtype (align_pad (count_of fr.offset) off) in
        (padded pad fr, pad, false)
    finalize_kind rs_org off fr =
        let back = ltb (org_target fr) off in
        let pad = if back then 0 else org_target fr - off in (padded pad fr, pad, back)
    finalize_kind _ off fr = (fr, frag_fill_size fr, false)

    unfoldable pub finalize_frag : ℕ → Frag Symbol → Frag Symbol × ℕ × Bool
    unfolding frag_fix_size finalize_kind
    finalize_frag addr fr =
        finalize_kind fr.kind (u64_add addr (frag_fix_size fr)) (record fr { address = addr })

    -- The frags, the address behind them, and the count of errors.
    unfoldable pub finalize_frags : ℕ → List (Frag Symbol) → List (Frag Symbol) × ℕ × ℕ
    unfolding finalize_frag
    finalize_frags addr [] = ([], addr, 0)
    finalize_frags addr (fr ∷ frs) =
        let (fr', pad, back) = finalize_frag addr fr in
        let (rest, end, errors) = finalize_frags (u64_add addr (frag_fix_size fr + pad)) frs in
        (fr' ∷ rest, end, (if back then suc errors else errors))

    unfoldable pub finalize_align_org : ℕ → List (Chain Symbol) → List (Chain Symbol) × ℕ
    unfolding finalize_frags
    finalize_align_org addr [] = ([], 0)
    finalize_align_org addr (fc ∷ fcs) =
        let (frs, end, errors) = finalize_frags addr fc.frags in
        let (rest, more) = finalize_align_org end fcs in
        (record fc { frags = frs } ∷ rest, errors + more)

  -- The pattern of a filled frag.
  abbrev pub pattern_of : Frag Symbol → Bytes
  pattern_of fr = take fr.var (drop fr.fix fr.literal)

  -- One frag at `total`, into a buffer of `length out` bytes; what does not fit is not written.
  unfoldable pub write_fixed : Frag Symbol → Bytes → ℕ → Bytes
  unfolding frag_fix_size put_bytes
  write_fixed fr out total =
      let n = frag_fix_size fr in
      if ltb (length out) (total + n) then out else put_bytes total (take n fr.literal) out

  unfoldable pub write_fill : Frag Symbol → Bytes → ℕ → Bytes
  unfolding frag_fill_size fill_loop
  write_fill fr out total =
      let fill = frag_fill_size fr in
      let written = fill_loop (count_of fr.offset) total (pattern_of fr) out in
      if fill == 0 || ltb (length out) (total + fill) then out else written

  unfoldable pub extract_frag : Frag Symbol → Bytes → ℕ → Bytes × ℕ
  unfolding write_fixed write_fill
  extract_frag fr out total =
      let behind = total + frag_fix_size fr in
      (write_fill fr (write_fixed fr out total) behind, behind + frag_fill_size fr)

  unfoldable pub extract_frags : List (Frag Symbol) → Bytes → ℕ → Bytes × ℕ
  unfolding extract_frag
  extract_frags [] out total = (out, total)
  extract_frags (fr ∷ frs) out total =
      let (out', total') = extract_frag fr out total in extract_frags frs out' total'

  unfoldable pub extract_chains : List (Chain Symbol) → Bytes → ℕ → Bytes × ℕ
  unfolding extract_frags
  extract_chains [] out total = (out, total)
  extract_chains (fc ∷ fcs) out total =
      let (out', total') = extract_frags fc.frags out total in extract_chains fcs out' total'

  -- The query for the size, and the call with a buffer of that size.
  unfoldable pub extract_text_bytes : Option (List (Chain Symbol)) → Bytes
  unfolding extract_chains
  extract_text_bytes none = []
  extract_text_bytes (some fcs) = (extract_chains fcs (replicate (extract_chains fcs [] 0).1 0) 0).0
