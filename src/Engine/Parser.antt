-- ===== src/Engine/Parser.antt =====
-- engine/esma_template.c: the parser of templates. Text has the character tests and scans, Terms what
-- the parser adds to a template, Modes and Options one function for each case of the `switch` in
-- `_decode_buffer`, and Decode its loop.
pub mod Text
pub mod Terms
pub mod Modes
pub mod Words
pub mod Options
pub mod Decode
pub mod Lengths
pub mod Built
pub mod Moves
pub mod Cases
pub mod Channels
pub mod Ends
pub mod Rounds
pub mod Correct
pub mod Runs
pub mod Printed
pub mod Sections
pub mod Arrows
pub mod Transitions
pub mod Roundtrip
pub mod Special
pub mod Source
