-- ===== src/Tests.antt =====
-- The theorems at concrete inputs.
mod Strings
mod Tables
mod Records
mod Dicts
mod Arrays
mod Numbers
mod Store
mod Matches
mod Files
mod Texts
mod Links
