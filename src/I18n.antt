-- ===== src/I18n.antt =====
-- common-cpp/src/I18n.h and I18n.cpp: the language, found once, and the texts in it.
pub mod Texts
pub mod Locale
pub mod Get
