-- ===== src/I18n/Texts.antt =====
-- The two language maps of common-cpp/src/I18n.h.
use Prim.Native.String.{String}
use pcbu_natives_old.Prelude.{List, [], ◌∷◌}

abbrev pub LangMap : Type 0
LangMap = List (String × String)

-- m_EnLangMap
unfoldable pub en_lang_map : LangMap
en_lang_map =
    ("initializing", "Initializing...")
    ∷ ("password", "Password")
    ∷ ("error_unknown", "Unknown Error.")
    ∷ ("error_pam", "Error: Could not get PAM info.")
    ∷ ("error_not_paired", "Error: User {} is not paired.")
    ∷ ("error_invalid_user", "Error: Invalid user.")
    ∷ ("error_start_handler", "Error: Could not start socket.")
    ∷ ("error_password", "Invalid password.")
    ∷ ("enter_password", "Please enter your password.")
    ∷ ("wait_network", "Waiting for network connection...")
    ∷ ("wait_key_press", "Press any key or click.")
    ∷ ("wait_phone_connect", "Connecting to phone...")
    ∷ ("wait_phone_unlock", "Use phone to unlock...")
    ∷ ("unlock_success", "Success.")
    ∷ ("unlock_canceled", "Canceled.")
    ∷ ("unlock_timeout", "Timeout.")
    ∷ ("unlock_error_connect", "Could not connect to phone.")
    ∷ ("unlock_error_time", "Error: Time on PC does not match phone time.")
    ∷ ("unlock_error_data", "Error: Invalid data received.")
    ∷ ("unlock_error_not_paired", "Error: Not paired on phone.")
    ∷ ("unlock_error_app", "Unknown app error. Please contact support.")
    ∷ ("unlock_error_unknown", "Unknown error. Please contact support.")
    ∷ []

-- m_DeLangMap
unfoldable pub de_lang_map : LangMap
de_lang_map =
    ("initializing", "Initialisiere...")
    ∷ ("password", "Passwort")
    ∷ ("error_unknown", "Unbekannter Fehler.")
    ∷ ("error_pam", "Fehler: Konnte PAM Infos nicht holen.")
    ∷ ("error_not_paired", "Fehler: Benutzer {} ist nicht gepairt.")
    ∷ ("error_invalid_user", "Fehler: Ungültiger Benutzer.")
    ∷ ("error_start_handler", "Fehler: Konnte Socket nicht starten.")
    ∷ ("error_password", "Ungültiges Passwort.")
    ∷ ("enter_password", "Gib bitte dein Passwort ein.")
    ∷ ("wait_network", "Warte auf Netzwerkverbindung...")
    ∷ ("wait_key_press", "Drücke eine beliebige Taste.")
    ∷ ("wait_phone_connect", "Verbinde mit Telefon...")
    ∷ ("wait_phone_unlock", "Verwende Telefon, um zu entsperren...")
    ∷ ("unlock_success", "Erfolg.")
    ∷ ("unlock_canceled", "Abgebrochen.")
    ∷ ("unlock_timeout", "Zeit abgelaufen.")
    ∷ ("unlock_error_connect", "Verbindung zum Telefon fehlgeschlagen.")
    ∷ ("unlock_error_time", "Fehler: Zeit auf PC stimmt nicht mit Telefon Zeit überein.")
    ∷ ("unlock_error_data", "Fehler: Ungültige Daten empfangen.")
    ∷ ("unlock_error_not_paired", "Fehler: Nicht gepairt auf Telefon.")
    ∷ ("unlock_error_app", "Unbekannter App Fehler. Bitte Support kontaktieren.")
    ∷ ("unlock_error_unknown", "Unbekannter Fehler. Bitte Support kontaktieren.")
    ∷ []
