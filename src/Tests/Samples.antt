-- ===== src/Tests/Samples.antt =====
-- A crypto library, an allocator and a JSON library to try the model with.
use pcbu_natives_old.Prelude.{
  ℕ, refl, ap, sym, ◌∙◌, true, false, Option, none, some, List, [], ◌∷◌, ◌++◌, length, take,
  replicate, length-replicate, take-append,
}
use pcbu_natives_old.Prelude.Texts.{Bytes}
use pcbu_natives_old.Prelude.Signed.{ℤ, pos}
use pcbu_natives_old.Crypt.Ssl.{Ssl, IsGcm}
use pcbu_natives_old.Crypt.Packet.{Host, PacketCryptResult, ok}
use pcbu_natives_old.Storage.Json.{Json}
use pcbu_natives_old.Storage.PairedDevice.{PairedDevice, tcp}

abbrev pub sample_malloc : ℕ → Option Bytes
sample_malloc n = some (replicate n 0)

abbrev first_bytes : ℤ → Bytes → Bytes
first_bytes (pos n) input = take n input
first_bytes _ input = []

abbrev pub sample_ssl : Ssl
sample_ssl = record {
  rand_bytes = λ k n. some (replicate n 7);
  pbkdf2_hmac = λ pwd salt iter size. some (replicate size 1);
  ctx_new = true;
  init_cipher = true;
  set_ivlen = λ n. true;
  init_key = λ key iv. true;
  encrypt_update = λ key iv plain. some plain;
  encrypt_final = λ key iv plain. some [];
  get_tag = λ key iv plain. replicate 16 9;
  decrypt_update = λ key iv input size. some (first_bytes size input);
  set_tag = λ tag. true;
  decrypt_final = λ key iv input size tag. some [];
}

abbrev of_some {ℓ} : {A : Type ℓ} → A → Option A → A
of_some d none = d
of_some d (some a) = a

pub sample_ssl-IsGcm : IsGcm sample_ssl
sample_ssl-IsGcm = record {
  drawn = λ k n b e. ap length (sym (ap (of_some []) e)) ∙ length-replicate {A = ℕ} n 7;
  same_length = λ key iv plain cipher e. ap length (sym (ap (of_some []) e));
  nothing_left = λ key iv plain last e. sym (ap (of_some []) e);
  tag_length = λ key iv plain. refl;
  tag_accepted = λ tag h. refl;
  opened = λ key iv plain cipher rest e. ap some (
      ap (λ c. take (length plain) (c ++ rest)) (sym (ap (of_some []) e))
      ∙ take-append plain rest (length plain) refl);
  verified = λ key iv plain cipher rest e. refl;
}

abbrev pub sample_host : Host
sample_host = record {
  little_endian = true;
  windows = false;
  malloc = sample_malloc;
  ssl = sample_ssl;
}

abbrev pub packet_of : PacketCryptResult → Bytes
packet_of (ok b) = b
packet_of _ = []

abbrev pub sample_device : PairedDevice
sample_device = record {
  pairing_id = 1 ∷ [];
  pairing_method = tcp;
  device_name = 2 ∷ [];
  user_name = 3 ∷ [];
  encryption_key = 4 ∷ 4 ∷ [];
  ip_address = 5 ∷ [];
  bluetooth_address = 6 ∷ [];
  cloud_token = 7 ∷ [];
}

-- Every text is a value; every member of it is the text itself; it prints as its first members.
abbrev first_value : List (Bytes × Bytes) → Bytes
first_value [] = 123 ∷ []
first_value ((k, v) ∷ ms) = v

abbrev pub sample_json : Json
sample_json = record {
  Value = Bytes;
  parse = λ text. some text;
  string_at = λ v k. some v;
  int_at = λ v k. some (length v);
  bool_at = λ v k. some false;
  entries = λ v. v ∷ [];
  dump = λ ms. first_value ms;
}
