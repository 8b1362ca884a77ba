-- ===== src/Python.antt =====
-- Python as the program uses it: exceptions as values, code that changes a state, the text of
-- numbers, and paths.
pub mod Error
pub mod Stateful
pub mod Show
pub mod Spaces
pub mod Paths
