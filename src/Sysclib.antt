-- ===== src/Sysclib.antt =====
-- src/iop/sysclib.cpp: the C library of the IOP.
pub mod Ctype
pub mod Memory
pub mod Moves
pub mod Words
pub mod Fills
pub mod Searches
pub mod Strings
pub mod Tokens
pub mod Text
pub mod Compare
pub mod Numbers
pub mod Print
pub mod Parse
pub mod RoundTrip
pub mod Padding
pub mod Written
pub mod Cases
pub mod Directives
pub mod Formatter
pub mod Echo
mod Tests
