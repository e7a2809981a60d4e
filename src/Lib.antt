-- ===== src/Lib.antt =====
-- NyxstoneTricoreGCC assembles and disassembles TriCore code in memory. A C++ driver
-- (src/nyxstone.cpp, include/nyxstone/nyxstone.h) splits the source into statements, handles labels
-- and directives itself, and hands the rest to a C layer (src/nyxstone_glue.c) over the GNU assembler
-- and libopcodes. A C interface (src/nyxstone_c.cpp) wraps the C++ class. This library models the
-- driver, the C layer, and the C interface.
--
-- Text is the list of its bytes (Bytes); machine integers are numbers with their wrap-around written
-- out, signed ones the type ℤ of Base.
--
-- - Base, Text: shared names and lemmas, byte strings, character classes, ltrim and rtrim.
-- - Source: strip_block_comments (Source/BlockComments), strip_comment (Source/LineComments) and the
--   splitting loop of the lambda run (Source/Statements); Source/Statements/Grammar has the texts of
--   statements, written down independently. The loops' flags and the bytes skipped by
--   index arithmetic are a mode of a scanner that sees one byte at a time.
-- - Literal: parse_int, with strtoll of the C library written out for base 0. Errors of strtoll
--   saturate, as documented; errno is not looked at.
-- - Data: emit_u8 to emit_u64, emit_int_list, all_int_literals, parse_int_args, emit_ascii.
-- - Driver: the two globals (section violation, first directive error) and the calls of the C layer
--   made while the source is read. The driver looks at no result of these calls before it has read the
--   whole source, so they are collected in order and run afterwards.
-- - Directive: handle_directive; Process: the lambda process, and run.
-- - Glue: the C layer as the driver sees it, an interface over an abstract state.
-- - Gas: the functions of gas and BFD that the C layer calls, as an interface, with the fields that it
--   reads and writes of gas's frags, fixups and chains: they are not part of the repository.
-- - GlueLayer: the C layer over Gas. GlueLayer/Startup is nyxstone_glue_init_once, GlueLayer/Encode is encode_pcrel_field with its 22 relocation
--   forms, and GlueLayer/Encode/Operand the formats of the operands, written down independently.
--   GlueLayer/Sections has the passes over the frags, GlueLayer/Relax the choice of branch forms,
--   GlueLayer/Fixups and GlueLayer/Resolve the fixups, the order of the phases and the listing of
--   relocations, GlueLayer/Capture the capture of messages. GlueLayer/Forward has the remaining calls
--   and fills the interface Glue; GlueLayer/Complete and GlueLayer/Linked are about do_assemble over
--   it, and GlueLayer/Undefined describes the symbols that are left to the linker. What a fixup refers to, where it is written and what a pass without errors leaves are in
--   GlueLayer/Fixups/Reference, Spots, Carried, Clean and Kept.
-- - Assemble: do_assemble and clean_gas_diag; Assemble/Checks says when it returns a value.
-- - Decoder: nyxstone_glue_disasm_one and its callbacks, over libopcodes' decoder as a parameter;
--   Decoder/Addresses is about the addresses that it shows.
-- - Disassemble: do_disassemble; Api: the public methods.
-- - CAbi: src/nyxstone_c.cpp. CAbi/Store is the memory: malloc gives a new block or fails, as a
--   parameter says. CAbi/Convert has the conversions, CAbi/Entry what all entry points do, CAbi/Calls
--   the functions that take a handle, one definition each, under their C names. The handle is a flag
--   there, and an exception of the C++ class a parameter. CAbi/Handle has nyxstone_create and
--   nyxstone_destroy, where a handle is a block that owns an object of the class.
--   CAbi/Content, CAbi/Elements, CAbi/Owned and CAbi/Whole say what a successful call hands out.
-- - Tests: runs on concrete inputs.
--
-- Loops with no structural argument take fuel: the loops of emit_int_list, all_int_literals and
-- emit_ascii and the label loop of process get one more than the length of the text, and each round
-- takes a byte or more. The loop of do_disassemble gets the count of the bytes; a round that takes none
-- is its last. The loops over the relaxation table get its size, 37, and the relaxation gets 32 rounds
-- and one, as in the source; the loop that doubles a capacity gets the size that is wanted. The loop
-- for the logarithm in .balign gets 63, since an operand is below 2 ^ 63.
--
-- Not modelled: exhausted memory inside the C++ class and the C layer, the destructors and moves
-- of the C++ class, what gas and BFD do in their own functions, the bindings for Rust and Python, the examples,
-- the build files, and include/nyxstone/expected.hpp, a copy of tl::expected.
pub mod Base
pub mod Text
pub mod Source
pub mod Literal
pub mod Driver
pub mod Data
pub mod Directive
pub mod Process
pub mod Glue
pub mod Expected
pub mod Gas
pub mod GlueLayer
pub mod Decoder
pub mod Disassemble
pub mod Assemble
pub mod Api
pub mod CAbi
pub mod Tests
