-- ===== src/Processor.antt =====
-- The processor of the requests: processor.h and processor.cpp.
pub mod Answers
pub mod Routes
pub mod Query
pub mod Handle
pub mod Sends
pub mod Loop
