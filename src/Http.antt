-- ===== src/Http.antt =====
-- The HTTP layer: include/http_proto.cpp and include/sp_http_proto.cpp.
pub mod Quote
pub mod Method
pub mod Status
pub mod Version
pub mod Message
pub mod Params
pub mod Request
