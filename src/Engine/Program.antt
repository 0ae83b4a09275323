-- ===== src/Engine/Program.antt =====
-- From the text of a program to its machine: engine/esma_template.c and engine/esma_load.c together.
pub mod Gains
pub mod Last
pub mod Named
pub mod Loaded
