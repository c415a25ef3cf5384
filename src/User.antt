-- ===== src/User.antt =====
-- question/user: the library that programs are linked with (lib/libc.c), the console and the
-- programs themselves.
pub mod Numbers
pub mod Philosophers
pub mod Programs
pub mod Requests
pub mod Commands
pub mod Text
pub mod Waiting
