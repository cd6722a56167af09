-- ===== src/Util.antt =====
-- The helpers of include/util.h and include/util.cpp.
pub mod Numbers
pub mod Text
pub mod Accounts
pub mod Values
