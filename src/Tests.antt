-- ===== src/Tests.antt =====
-- Concrete runs of the code, and the theorems at inputs that exercise it.
pub mod Common
mod Store
mod Files
mod Keys
mod Notify
mod Config
mod Documents
mod Create
mod Changes
mod Manager
mod Threads
mod Refresh
mod Values
mod Pairs
mod Templates
mod AnyOrder
mod Telemetry
mod ProvidedFiles
mod SecretFiles
mod YamlValues
