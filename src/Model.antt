-- ===== src/Model.antt =====
-- The typed records of src/onceproof/model.py. The dictionaries that they are written to and read
-- from are in the child modules.
pub mod Json
pub mod Codec
pub mod RoundTrip
mod Records
pub use Records.*
