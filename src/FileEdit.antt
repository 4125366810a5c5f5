-- ===== src/FileEdit.antt =====
-- internal/fileedit: edits of a text that the caller has named by its digest.
pub mod Bytes
pub mod Slices
pub mod Lines
pub mod Boundaries
pub mod Patch
pub mod Apply
pub mod Diff
pub mod RoundTrips
pub mod Tests
