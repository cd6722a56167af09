-- ===== src/Examples.antt =====
-- The theorems at concrete inputs.
mod Base
mod Requests
mod Messages
mod Helpers
mod Posts
mod Loop
mod Objects
mod Answers
