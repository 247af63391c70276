-- ===== src/Didagle.antt =====
-- didagle: graphs of processors.
pub mod Vertex
pub mod Circle
pub mod Config
pub mod Fill
pub mod Graph
pub mod Executor
mod Tests
