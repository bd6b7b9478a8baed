-- ===== src/Resolve.antt =====
-- src/resolve/mod.rs: dependency resolution, the breadth-first walk with nearest-wins mediation.
pub mod Classpath
pub mod Model
pub mod Managed
pub mod Admission
pub mod Walk
pub mod Widen
pub mod LocalJars
mod Examples
