-- ===== src/Cga.antt =====
-- The text console of cga/: the parser of escape sequences (Ansi), what a display offers the
-- driver (Backend), the two displays (Crt of cga/backend.go and Framebuffer of cga/fbcga/fbcga.go),
-- and the driver of cga/cga.go that joins them (Driver).
pub mod Ansi
pub mod Backend
pub mod Crt
pub mod Framebuffer
pub mod Driver
pub mod Tests
