-- ===== src/UnlockState.antt =====
-- common-cpp/src/handler/UnlockState.h: the outcomes of an unlock, and their texts.
use Prim.Native.String.{String}
use pcbu_natives_old.Prelude.{Bool, true, false}

pub data UnlockState : Type 0 where
  unknown success canceled timeout connect_error time_error data_error not_paired_error app_error
        start_error unk_error :
      UnlockState

-- The key that ToString asks I18n::Get for.
unfoldable pub text_key : UnlockState → String
text_key UnlockState.success = "unlock_success"
text_key UnlockState.canceled = "unlock_canceled"
text_key UnlockState.timeout = "unlock_timeout"
text_key UnlockState.connect_error = "unlock_error_connect"
text_key UnlockState.time_error = "unlock_error_time"
text_key UnlockState.data_error = "unlock_error_data"
text_key UnlockState.not_paired_error = "unlock_error_not_paired"
text_key UnlockState.app_error = "unlock_error_app"
text_key UnlockState.start_error = "error_start_handler"
text_key UnlockState.unk_error = "unlock_error_unknown"
text_key UnlockState.unknown = "error_unknown"

abbrev pub is_success : UnlockState → Bool
is_success UnlockState.success = true
is_success _ = false

abbrev pub is_unknown : UnlockState → Bool
is_unknown UnlockState.unknown = true
is_unknown _ = false
