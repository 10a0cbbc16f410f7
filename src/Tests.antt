-- ===== src/Tests.antt =====
-- The theorems at concrete inputs, and runs of the definitions.
mod Trampolines
mod Selectors
mod Classes
mod Wrappers
mod Objects
mod Files
mod Formats
mod Matches
mod Readers
mod Sessions
mod Tools
mod Replacing
