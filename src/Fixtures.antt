-- ===== src/Fixtures.antt =====
-- Concrete containers that have the laws of the interfaces: they show that the laws can be met, and
-- the examples run on them.
pub mod Order
pub mod Sorted
pub mod Listeners
pub mod Numbers
pub mod Templates
