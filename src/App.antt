-- ===== src/App.antt =====
-- The console program of src/app: its command line, the commands that it sends, its handlers and `main`.
pub mod Text
pub mod Printing
pub mod Numbers
pub mod Reader
pub mod Options
pub mod Interface
pub mod Handlers
pub mod Commands
pub mod Main
