-- ===== src/Robims.antt =====
-- robims: bitmap indexes over CRoaring bitmaps.
pub mod Bitmap
pub mod IdMapping
pub mod Field
pub mod Query
pub mod Table
pub mod Database
pub mod Bsi
mod Tests
