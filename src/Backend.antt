-- ===== src/Backend.antt =====
-- The two services behind the recommender of lab1, and the parts they share.
pub mod Injection
pub mod Dedup
pub mod Users
pub mod Videos
pub mod Exact
pub mod Mocks
pub mod Random
mod Tests
