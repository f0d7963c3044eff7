-- ===== src/Print/Chunk.antt =====
-- ZjStream chunks as src/rastertopantum.c writes them (write_chunk), with the chunk and item numbers
-- that the filter uses. A header field wider than its 16 or 32 bits is cut, as the casts cut it.
pub mod Zjt
pub mod Zji
mod Shape
pub mod Parse
mod RoundTrip
unfoldable pub use Shape.*
pub use RoundTrip.*
