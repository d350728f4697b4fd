-- ===== src/Utilities.antt =====
-- utilities/HexConverter.cpp, Base64.cpp and StringUtilities.cpp.
pub mod Hex
pub mod Base64
pub mod Split
pub mod Trim
pub mod Words
pub mod Erase
pub mod Tests
