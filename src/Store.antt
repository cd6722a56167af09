-- ===== src/Store.antt =====
-- The in-memory base of users, locations and visits: base.h and base.cpp.
pub mod Libs
pub mod HashMap
pub mod Utf8
pub mod Fields
pub mod User
pub mod Location
pub mod Visit
pub mod State
pub mod Insert
pub mod Update
pub mod Worker
pub mod Read
pub mod Cache
pub mod Instances
