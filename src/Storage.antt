-- ===== src/Storage.antt =====
-- The outcome logs (src/postrule/storage.py): `Memory` the two in-process backends, `Segments` and
-- `Files` the one on disk, `Resilient` the wrapper with a fallback. The other children hold lemmas:
-- `Window` on the in-process ones, `Rotation`, `Retention`, `Footprint` and `Batching` on the one on
-- disk, `Drain`, `Recovery`, `Spills`, `Outages` and `Healing` on the wrapper.
pub mod Memory
pub mod Window
pub mod Segments
pub mod Rotation
pub mod Retention
pub mod Footprint
pub mod Files
pub mod Batching
pub mod Resilient
pub mod Drain
pub mod Recovery
pub mod Spills
pub mod Outages
pub mod Healing
