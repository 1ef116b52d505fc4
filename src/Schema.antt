-- ===== src/Schema.antt =====
-- The database rows that the components read and write: prisma/schema.prisma.
pub mod Enums
pub mod Booking
pub mod Fleet
pub mod Money
pub mod Database
