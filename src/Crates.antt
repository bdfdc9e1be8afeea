-- ===== src/Crates.antt =====
-- The containers of third-party crates, as interfaces: operations that the program calls, and the
-- laws that their documentation states. The model is a function of any such container.
pub mod SkipMap
pub mod Documents
pub mod ListMultiMap
pub mod ShellExpand
