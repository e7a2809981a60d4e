-- ===== src/GlueLayer.antt =====
-- src/nyxstone_glue.c, the C layer over gas, apart from the decoder.
pub mod Startup
pub mod Encode
pub mod Sections
pub mod Relax
pub mod Fixups
pub mod Capture
pub mod Resolve
pub mod Forward
pub mod Undefined
pub mod Complete
pub mod Linked
