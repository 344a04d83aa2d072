-- ===== src/Process/Files.antt =====
-- The open files of kernel/src/process.rs: the cursor of read_fd() and write_fd(), and the way of a
-- buffer through close_fd(), the disk and open_file().
pub mod Cursor
pub mod Lengths
pub mod Persist
