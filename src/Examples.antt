-- ===== src/Examples.antt =====
-- The theorems apart from the controller, at concrete values.
mod Stream
mod JsonInput
mod JsonStreams
mod Work
mod Cli
mod Window
mod Texts
mod Network
