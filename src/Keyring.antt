-- ===== src/Keyring.antt =====
-- The file of root keys, src/onceproof/keyring.py.
pub mod Payload
pub mod Ring
pub mod Lookup
pub mod Shape
pub mod InStep
