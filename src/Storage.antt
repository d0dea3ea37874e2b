-- ===== src/Storage.antt =====
-- The file side of the program, src/api/storage/: streaming, uploads in chunks, paths, actions, the
-- scanner of uploads, listings and the count of what is used.
pub mod Bytes
pub mod Range
pub mod Streaming
pub mod Upload
pub mod FilePath
pub mod Usage
pub mod Site
pub mod Listing
pub mod Scanner
pub mod Actions
