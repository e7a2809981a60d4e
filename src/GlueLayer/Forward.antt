-- ===== src/GlueLayer/Forward.antt =====
-- src/nyxstone_glue.c, the calls that reach gas with no work of their own or little, the reset, and
-- the layer as what the driver takes for its C side.
pub mod Reset
use nyxstone_tricore_gcc.Base.{
  ℕ, sym, Option, none, some, List, [], ◌∷◌, ◌++◌, if◌then◌else◌, Bytes, codes, ℤ, pos, to_unsigned,
}
use nyxstone_tricore_gcc.Gas.{rs_fill, Frag, Chain, Session, Gas}
use nyxstone_tricore_gcc.Glue.{Glue}
use nyxstone_tricore_gcc.GlueLayer.Sections.{extract_text_bytes}
use nyxstone_tricore_gcc.GlueLayer.Capture.{begin_capture, write_all, end_capture}
use nyxstone_tricore_gcc.GlueLayer.Resolve.{
  Layer, resolve_text_fixups, unsupported_reloc, collect_relocs,
}
use nyxstone_tricore_gcc.Driver.{
  GlueCall, colon, fb_label, set_sym, md_assemble, emit_bytes, emit_cons, align, org,
}

-- `frag_alloc` with its type set. It is the only frag of its chain; that of the first one is
-- `frag_now`, with nothing in it.
abbrev pub fresh_frag : {Symbol : Type 0} → Option ℕ → Frag Symbol
fresh_frag open_fix = record {
  kind = rs_fill;
  fix = 0;
  var = 0;
  offset = pos 0;
  subtype = 0;
  symbol = none;
  literal = [];
  address = 0;
  open_fix = open_fix;
}

unfoldable pub reset_chains :
    {Symbol : Type 0} → Option ℕ → List (Chain Symbol) → List (Chain Symbol)
reset_chains open_fix [] = []
reset_chains open_fix (fc ∷ fcs) =
    record { frags = fresh_frag open_fix ∷ []; fixes = [] } ∷ reset_chains none fcs

module _ (g : Gas) where
  open g use {Symbol, World, symbol_find, is_defined}

  abbrev State : Type 0
  State = Session Symbol World

  unfoldable pub reset_text : Option (List (Chain Symbol)) → Option (List (Chain Symbol))
  unfolding reset_chains
  reset_text none = none
  reset_text (some fcs) = some (reset_chains (some 0) fcs)

  unfoldable pub reset : State → State
  unfolding reset_text
  reset s = record { text = reset_text s.text; world = g.reset_data (g.reset_symbols s.world) }

  unfoldable pub define_abs : Bytes → ℕ → State → State
  define_abs name value s = elim (symbol_find name s.world) [
    | none ↦ record s { world = g.new_absolute name value s.world }
    | some sym ↦
        let message =
          codes "label '"
          ++ name
          ++ codes "' is defined both in the source and as a LabelDefinition" in
        let w = g.set_absolute sym value s.world in
        let bad = g.as_bad message s.world in
        record s { world = if is_defined s.world sym then bad else w }
  ]

  -- The text at `input_line_pointer` ends with a newline.
  unfoldable pub glue_set_sym : Bytes → Bytes → State → State
  glue_set_sym name expr s = g.equals name (b'=' ∷ expr ++ b'\n' ∷ []) s

  unfoldable pub glue_fb_label : ℕ → State → State
  glue_fb_label n s =
      let w = g.fb_label_instance_inc n s.world in
      g.colon (g.fb_label_name n 0 w) (record s { world = w })

  unfoldable pub glue_emit_bytes : Bytes → State → State
  glue_emit_bytes [] s = s
  glue_emit_bytes (b ∷ bs) s = g.frag_more (b ∷ bs) s

  unfoldable pub glue_emit_cons : Bytes → ℕ → State → State
  glue_emit_cons args width s = g.cons width (args ++ b'\n' ∷ []) s

  -- The fill is stored as a `char`.
  unfoldable pub glue_org : ℕ → ℤ → State → State
  unfolding to_unsigned
  glue_org target fill s = g.frag_org target (to_unsigned 8 fill) s

  -- `nyxstone_glue_error`, which the driver does not call
  unfoldable pub glue_error : Bytes → State → State
  glue_error message s = record s { world = g.as_bad message s.world }

  unfoldable pub perform : GlueCall → State → State
  unfolding glue_set_sym glue_fb_label glue_emit_bytes glue_emit_cons glue_org
  perform (colon name) s = g.colon name s
  perform (fb_label n) s = glue_fb_label n s
  perform (set_sym name expr) s = glue_set_sym name expr s
  perform (md_assemble line) s = g.md_assemble line s
  perform (emit_bytes bs) s = glue_emit_bytes bs s
  perform (emit_cons args width) s = glue_emit_cons args width s
  perform (align p2 fill max) s = g.frag_align p2 fill max s
  perform (org target fill) s = glue_org target fill s

  -- What gas has written reaches the log or the process's own stream.
  unfoldable pub flush : Layer Symbol World → Layer Symbol World
  unfolding write_all
  flush l =
      let (texts, w) = g.printed l.session.world in
      record l { session = record l.session { world = w }; capture = (write_all texts l.capture).0 }

  abbrev on_session : (State → State) → Layer Symbol World → Layer Symbol World
  on_session f l = record l { session = f l.session }

  unfoldable pub start_capture : Layer Symbol World → Layer Symbol World
  unfolding flush begin_capture
  start_capture l = let l' = flush l in record l' { capture = begin_capture l'.capture }

  unfoldable pub stop_capture : Layer Symbol World → Bytes × Layer Symbol World
  unfolding flush end_capture
  stop_capture l =
      let l' = flush l in
      let (text, c) = end_capture l'.capture in (text, record l' { capture = c })

  unfoldable pub layer_text : State → Bytes
  unfolding extract_text_bytes
  layer_text s = extract_text_bytes s.text

  unfoldable pub glue_layer : Glue
  unfolding reset define_abs perform start_capture stop_capture resolve_text_fixups
      unsupported_reloc collect_relocs layer_text
  glue_layer = record {
    State = Layer Symbol World;
    reset = on_session reset;
    begin_capture = start_capture;
    end_capture = stop_capture;
    perform = λ call. on_session (perform call);
    define_abs = λ name value. on_session (define_abs name value);
    had_errors = λ l. g.had_errors l.session.world;
    resolve_text_fixups = resolve_text_fixups g;
    unsupported_reloc = unsupported_reloc g;
    collect_relocs = λ l. collect_relocs g l.session;
    extract_text_bytes = λ l. layer_text l.session;
  }
