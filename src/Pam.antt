-- ===== src/Pam.antt =====
-- pam-pcbiounlock: the PAM module, and the program pcbu_auth that it runs.
pub mod Auth
pub mod Module
pub mod Login
