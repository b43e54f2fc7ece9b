-- ===== src/SignIn.antt =====
-- src/modules/auth: the sign-in with a Stellar wallet, and what a request needs to be authenticated.
pub mod Message
pub mod Account
pub mod Challenge
pub mod Session
