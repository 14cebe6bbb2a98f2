-- ===== src/Model/Matches.antt =====
-- When a row of the database matches one of an older file (rust-server/model.rs): it differs in nothing
-- but its counters and, for a device, its session.
use csqtt_android.Shared.{◌≡◌, refl, Bool, true, false, arith, eq_of_same_bytes}
use csqtt_android.Model.{ClientDevice, PasswordEntry}
use csqtt_android.Model.Load.{same_flag, legacy_password_matches, legacy_device_matches}

abbrev pub IsSamePassword : PasswordEntry → PasswordEntry → Type 0
IsSamePassword kept entry =
    kept ≡ record entry { up_bytes = kept.up_bytes; down_bytes = kept.down_bytes }

abbrev pub IsSameDevice : ClientDevice → ClientDevice → Type 0
IsSameDevice kept device = kept ≡ record device {
  up_bytes = kept.up_bytes;
  down_bytes = kept.down_bytes;
  last_session_salt = kept.last_session_salt;
  last_generation_id = kept.last_generation_id;
}

eq_of_same_flag : (a b : Bool) → same_flag a b ≡ true → a ≡ b
eq_of_same_flag true b h = cc
eq_of_same_flag false true h = cc
eq_of_same_flag false false h = refl

pub IsSamePassword-of_match :
    (kept entry : PasswordEntry)
    → legacy_password_matches kept entry ≡ true
    → IsSamePassword kept entry
unfolding legacy_password_matches
IsSamePassword-of_match kept entry h =
    let device_id : kept.device_id ≡ entry.device_id =
      ground (arith, h, eq_of_same_bytes kept.device_id entry.device_id) in
    let expires_at : kept.expires_at ≡ entry.expires_at = ground (arith, h) in
    let vk_hash : kept.vk_hash ≡ entry.vk_hash =
      ground (arith, h, eq_of_same_bytes kept.vk_hash entry.vk_hash) in
    let ports : kept.ports ≡ entry.ports =
      ground (arith, h, eq_of_same_bytes kept.ports entry.ports) in
    let is_deactivated : kept.is_deactivated ≡ entry.is_deactivated =
      ground (arith, h, eq_of_same_flag kept.is_deactivated entry.is_deactivated) in
    let name : kept.name ≡ entry.name = ground (arith, h, eq_of_same_bytes kept.name entry.name) in
    let vk_hashes : kept.vk_hashes ≡ entry.vk_hashes =
      ground (arith, h, eq_of_same_bytes kept.vk_hashes entry.vk_hashes) in
    let dtls_port : kept.dtls_port ≡ entry.dtls_port = ground (arith, h) in
    let wg_port : kept.wg_port ≡ entry.wg_port = ground (arith, h) in
    let local_port : kept.local_port ≡ entry.local_port = ground (arith, h) in
    λ i. record {
      device_id = device_id i;
      expires_at = expires_at i;
      down_bytes = kept.down_bytes;
      up_bytes = kept.up_bytes;
      vk_hash = vk_hash i;
      ports = ports i;
      is_deactivated = is_deactivated i;
      name = name i;
      vk_hashes = vk_hashes i;
      dtls_port = dtls_port i;
      wg_port = wg_port i;
      local_port = local_port i;
    }

pub IsSameDevice-of_match :
    (kept device : ClientDevice)
    → legacy_device_matches kept device ≡ true
    → IsSameDevice kept device
unfolding legacy_device_matches
IsSameDevice-of_match kept device h =
    let device_id : kept.device_id ≡ device.device_id =
      ground (arith, h, eq_of_same_bytes kept.device_id device.device_id) in
    let ip : kept.ip ≡ device.ip = ground (arith, h, eq_of_same_bytes kept.ip device.ip) in
    let priv_key : kept.priv_key ≡ device.priv_key =
      ground (arith, h, eq_of_same_bytes kept.priv_key device.priv_key) in
    let pub_key : kept.pub_key ≡ device.pub_key =
      ground (arith, h, eq_of_same_bytes kept.pub_key device.pub_key) in
    let bound_password : kept.bound_password ≡ device.bound_password =
      ground (arith, h, eq_of_same_bytes kept.bound_password device.bound_password) in
    λ i. record {
      device_id = device_id i;
      ip = ip i;
      priv_key = priv_key i;
      pub_key = pub_key i;
      up_bytes = kept.up_bytes;
      down_bytes = kept.down_bytes;
      bound_password = bound_password i;
      last_session_salt = kept.last_session_salt;
      last_generation_id = kept.last_generation_id;
    }
