-- ===== src/Smfc.antt =====
-- src/smfc: the compiler that writes services and clients from a flatbuffers schema.
pub mod Printer
pub mod Schema
pub mod Cpp
pub mod Go
pub mod Python
pub mod Flags
pub mod Codegen
pub mod Driver
pub mod Plain
