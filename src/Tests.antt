-- ===== src/Tests.antt =====
-- Runs at concrete inputs, by the part of the code that they are about.
pub mod Checks
pub mod OfText
pub mod OfFiles
pub mod OfPlugins
pub mod OfStartup
pub mod OfPatches
pub mod OfDocuments
pub mod OfDetour
pub mod OfExported
pub mod OfRunPatch
pub mod OfVsh
pub mod OfSystem
pub mod Samples
