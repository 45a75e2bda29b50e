-- ===== src/Tests/Storage.antt =====
-- Stored devices and settings at concrete inputs.
use pcbu_natives_old.Prelude.{◌≡◌, ◌↔◌, [], ◌∷◌}
use pcbu_natives_old.Prelude.Texts.{Bytes, codes}
use pcbu_natives_old.Storage.PairedDevice.{
  In, get_devices, get_devices_for_user, get_devices_for_user_iff,
}
use pcbu_natives_old.Tests.Samples.{sample_json, sample_device}

abbrev file : Bytes
file = codes "TCP"

get_devices_for_user_iff_example :
    In sample_device (get_devices_for_user sample_json file (3 ∷ []))
    ↔ (In sample_device (get_devices sample_json file) × (sample_device.user_name ≡ 3 ∷ []))
get_devices_for_user_iff_example = get_devices_for_user_iff sample_json file (3 ∷ []) sample_device
