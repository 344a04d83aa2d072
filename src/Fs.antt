-- ===== src/Fs.antt =====
-- kernel/src/fs.rs, the on-disk filesystem: directory tables (`Table`), paths (`Walk`), the sector
-- pool (`Pool`) the operations on files and directories (`Ops`, `Read`) and what holds of them (`Laws`).
pub mod Error
pub mod Table
pub mod Walk
pub mod Pool
pub mod Io
pub mod Ops
pub mod Read
pub mod Laws
mod Tests
