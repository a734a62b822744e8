-- ===== src/Auth.antt =====
-- backend/src/modules/auth/auth.service.ts. `State` has what the service keeps and what it is given;
-- the other children follow the service's sections: login and its lock, tokens, OAuth codes, emails
-- and passwords.
pub mod State
pub mod Lock
pub mod Login
pub mod Tokens
pub mod OAuth
pub mod Emails
pub mod Passwords
pub mod Samples
mod Tests
