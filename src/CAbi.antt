-- ===== src/CAbi.antt =====
-- src/nyxstone_c.cpp and c_api/nyxstone_c.h, the C interface.
pub mod Store
pub mod Convert
pub mod Balance
pub mod Release
pub mod Entry
pub mod Calls
pub mod Contract
pub mod Answers
pub mod Memory
pub mod Violation
pub mod Content
pub mod Elements
pub mod Owned
pub mod Whole
pub mod Handle
