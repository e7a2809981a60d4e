-- ===== src/GlueLayer/Sections/Image.antt =====
-- The image of the section: `nyxstone_glue_extract_text_bytes` behind `layout`.
use nyxstone_tricore_gcc.GlueLayer.Sections.Extract.{
  fixed_part, filled_part, content, contents, HasLiteral, length-fixed_part, length-filled_part,
  contents-append, extract_chains-Wrote,
}
use nyxstone_tricore_gcc.Base.{
  ℕ, ◌+◌, ◌^◌, ◌<◌, ◌≡◌, refl, ap, subst, ◌∙◌, some, List, [], ◌∷◌, ◌++◌, append-nil, arith, length,
  drop, replicate, length-append, length-replicate, All, Bytes,
}
use nyxstone_tricore_gcc.Gas.{Frag, Chain}
use nyxstone_tricore_gcc.Disassemble.{u64_add}
use nyxstone_tricore_gcc.GlueLayer.Sections.{
  all_frags, frag_fix_size, frag_fill_size, layout_frags, layout, extract_frag, extract_frags,
  extract_chains, extract_text_bytes,
}

drop-append : (xs ys : Bytes) → drop (length xs) (xs ++ ys) ≡ ys
drop-append [] ys = refl
drop-append (x ∷ xs) ys = drop-append xs ys

pub no_bytes_left : (old : Bytes) → length old ≡ 0 → old ≡ []
no_bytes_left [] h = refl
no_bytes_left (b ∷ old) h = absurd (omega arith)

module _ {Symbol : Type 0} where
  -- The length that a call finds does not depend on the buffer.
  extract_frags-total :
      (frs : List (Frag Symbol)) (out out' : Bytes) (n : ℕ)
      → (extract_frags frs out n).1 ≡ (extract_frags frs out' n).1
  unfolding extract_frags extract_frag
  extract_frags-total [] out out' n = refl
  extract_frags-total (fr ∷ frs) out out' n =
      extract_frags-total frs (extract_frag fr out n).0 (extract_frag fr out' n).0
        (extract_frag fr out n).1

  extract_chains-total :
      (fcs : List (Chain Symbol)) (out out' : Bytes) (n : ℕ)
      → (extract_chains fcs out n).1 ≡ (extract_chains fcs out' n).1
  unfolding extract_chains
  extract_chains-total [] out out' n = refl
  extract_chains-total (fc ∷ fcs) out out' n =
      let (rest, n') = extract_frags fc.frags out n in
      let (rest', m') = extract_frags fc.frags out' n in
      extract_chains-total fcs rest rest' n'
      ∙ ap (λ (m : ℕ). (extract_chains fcs rest' m).1) (extract_frags-total fc.frags out out' n)

  -- If the literals have room for what the frags say, the two calls give exactly the contents of
  -- the frags, one behind the other.
  pub extract_text_bytes-contents :
      (fcs : List (Chain Symbol))
      → All (λ fc. All HasLiteral fc.frags) fcs
      → extract_text_bytes (some fcs) ≡ contents (all_frags fcs)
  unfolding extract_text_bytes
  extract_text_bytes-contents fcs h =
      let all = contents (all_frags fcs) in
      let buffer = replicate (length all) 0 in
      let size : length buffer ≡ length all + 0 =
        omega (arith, length-replicate {A = ℕ} (length all) 0) in
      let ((old, none_left, e), total) = extract_chains-Wrote fcs [] buffer 0 h size in
      let queried : (extract_chains fcs [] 0).1 ≡ length all =
        extract_chains-total fcs [] buffer 0 ∙ total in
      ap (λ (n : ℕ). (extract_chains fcs (replicate n 0) 0).0) queried
      ∙ e
      ∙ ap (λ r. all ++ r) (no_bytes_left old none_left)
      ∙ append-nil all

  -- Each frag has the address behind the frag in front of it.
  abbrev AddressesFrom : ℕ → List (Frag Symbol) → Type 0
  AddressesFrom addr [] = Unit
  AddressesFrom addr (fr ∷ frs) =
      (fr.address ≡ addr) × AddressesFrom (u64_add addr (frag_fix_size fr + frag_fill_size fr)) frs

  -- The frags of a chain, and the frags of the chains behind it.
  chained :
      (addr : ℕ) (frs rest : List (Frag Symbol))
      → AddressesFrom (layout_frags addr frs).1 rest
      → AddressesFrom addr ((layout_frags addr frs).0 ++ rest)
  unfolding layout_frags frag_fix_size frag_fill_size
  chained addr [] rest h = h
  chained addr (fr ∷ frs) rest h =
      (refl, chained (u64_add addr (frag_fix_size fr + frag_fill_size fr)) frs rest h)

  All-join :
      (xs ys : List (Frag Symbol))
      → All HasLiteral xs
      → All HasLiteral ys
      → All HasLiteral (xs ++ ys)
  All-join [] ys h k = k
  All-join (x ∷ xs) ys (h, hs) k = (h, All-join xs ys hs k)

  address_behind :
      (addr : ℕ) (xs ys : List (Frag Symbol)) (fr : Frag Symbol)
      → AddressesFrom addr (xs ++ fr ∷ ys)
      → All HasLiteral xs
      → addr + length (contents xs) < 2 ^ 64
      → fr.address ≡ addr + length (contents xs)
  address_behind addr [] ys fr (e, rest) h small = omega arith
  address_behind addr (x ∷ xs) ys fr (e, rest) (h, hs) small =
      let next = u64_add addr (frag_fix_size x + frag_fill_size x) in
      let size : length (content x) ≡ frag_fix_size x + frag_fill_size x = omega (
        arith,
        length-append (fixed_part x) (filled_part x),
        length-fixed_part x h,
        length-filled_part x h,
      ) in
      let both = length-append (content x) (contents xs) in
      omega (arith, address_behind next xs ys fr rest hs (omega arith))

  all_frags-layout :
      (addr : ℕ) (fcs : List (Chain Symbol)) → AddressesFrom addr (all_frags (layout addr fcs))
  unfolding layout
  all_frags-layout addr [] = tt
  all_frags-layout addr (fc ∷ fcs) =
      chained addr fc.frags (all_frags (layout (layout_frags addr fc.frags).1 fcs))
        (all_frags-layout (layout_frags addr fc.frags).1 fcs)

  All-front : (xs ys : List (Frag Symbol)) → All HasLiteral (xs ++ ys) → All HasLiteral xs
  All-front [] ys h = tt
  All-front (x ∷ xs) ys (h, hs) = (h, All-front xs ys hs)

  pub All-chains :
      (fcs : List (Chain Symbol))
      → All (λ fc. All HasLiteral fc.frags) fcs
      → All HasLiteral (all_frags fcs)
  All-chains [] h = tt
  All-chains (fc ∷ fcs) (h, hs) = All-join fc.frags (all_frags fcs) h (All-chains fcs hs)

  -- In the image of a section that is laid out, what stands at a frag's address is the frag's
  -- contents, and the contents of the frags behind it follow.
  pub extract_text_bytes-layout :
      (fcs : List (Chain Symbol)) (xs ys : List (Frag Symbol)) (fr : Frag Symbol)
      → all_frags (layout 0 fcs) ≡ xs ++ fr ∷ ys
      → All (λ fc. All HasLiteral fc.frags) (layout 0 fcs)
      → length (contents (all_frags (layout 0 fcs))) < 2 ^ 64
      → drop fr.address (extract_text_bytes (some (layout 0 fcs))) ≡ contents (fr ∷ ys)
  extract_text_bytes-layout fcs xs ys fr e h small =
      let laid = layout 0 fcs in
      let split : contents (all_frags laid) ≡ contents xs ++ contents (fr ∷ ys) =
        ap contents e ∙ contents-append xs (fr ∷ ys) in
      let front = All-front xs (fr ∷ ys) (subst (All HasLiteral) e (All-chains laid h)) in
      let small_front : 0 + length (contents xs) < 2 ^ 64 =
        omega (arith, ap length split, length-append (contents xs) (contents (fr ∷ ys))) in
      let laid_out = subst (AddressesFrom 0) e (all_frags-layout 0 fcs) in
      let at : fr.address ≡ length (contents xs) =
        omega (arith, address_behind 0 xs ys fr laid_out front small_front) in
      let image = extract_text_bytes-contents laid h ∙ split in
      ap (λ r. drop fr.address r) image
      ∙ ap (λ (n : ℕ). drop n (contents xs ++ contents (fr ∷ ys))) at
      ∙ drop-append (contents xs) (contents (fr ∷ ys))
