-- ===== src/Auth.antt =====
-- src/modules/auth: one-time passwords, accounts and the request guards.
pub mod Bcrypt
pub mod Guards
pub mod Users
pub mod Admins
pub mod Endpoints
pub mod Sms
mod Tests
pub mod Otp
