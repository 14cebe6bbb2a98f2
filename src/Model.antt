-- ===== src/Model.antt =====
-- rust-server/model.rs: the server's state as it is kept in memory. A string is its bytes, and an
-- `i64` that counts bytes or seconds a natural number.
pub mod Bindings
pub mod Profiles
pub mod Lost
mod Tests
pub mod Disk
pub mod Load
pub mod Persistence
pub mod View
pub mod Traffic
pub mod Refines
pub mod Pending
pub mod Answers
pub mod Settings
pub mod Order
pub mod RoundTrip
pub mod Matches
pub mod Import
pub mod Keeps
use csqtt_android.Shared.{
  ℕ, zero, suc, ◌+◌, Bool, true, false, not, ◌&&◌, ◌||◌, List, [], ◌∷◌, ◌++◌, Option, none, some,
  ltb, ◌==◌, if◌then◌else◌, same_bytes, Name, get, contains_key, map_values, map_option,
  get_default, ascii, decimal, length,
}

pub record ClientDevice : Type 0 where
  pub device_id : Name
  pub ip : Name
  pub priv_key : Name
  pub pub_key : Name
  pub up_bytes : ℕ
  pub down_bytes : ℕ
  pub bound_password : Name
  pub last_session_salt : Name
  pub last_generation_id : ℕ

pub record PasswordEntry : Type 0 where
  pub device_id : Name
  pub expires_at : ℕ
  pub down_bytes : ℕ
  pub up_bytes : ℕ
  pub vk_hash : Name
  pub ports : Name
  pub is_deactivated : Bool
  pub name : Name
  pub vk_hashes : Name
  pub dtls_port : ℕ
  pub wg_port : ℕ
  pub local_port : ℕ

abbrev pub default_local_proxy_port : ℕ
default_local_proxy_port = 45_000

pub record LocalProxyProfile : Type 0 where
  pub host : Name
  pub id : Name
  pub name : Name
  pub port : ℕ
  pub username : Name
  pub password : Name

pub record LocalProxyState : Type 0 where
  pub active_profile_id : Name
  pub profiles : List LocalProxyProfile

abbrev pub is_empty : Name → Bool
is_empty [] = true
is_empty (b ∷ s) = false

unfoldable pub find_profile : List LocalProxyProfile → Name → Option LocalProxyProfile
find_profile [] id = none
find_profile (p ∷ profiles) id = if same_bytes p.id id then some p else find_profile profiles id

-- `profiles.iter().any(|p| p.id == id)`
unfoldable pub any_profile : List LocalProxyProfile → Name → Bool
any_profile [] id = false
any_profile (p ∷ profiles) id = same_bytes p.id id || any_profile profiles id

unfoldable pub normal_ports : List LocalProxyProfile → List LocalProxyProfile
normal_ports [] = []
normal_ports (p ∷ profiles) =
    (if p.port == 0 then record p { port = default_local_proxy_port } else p)
    ∷ normal_ports profiles

unfoldable pub normalize : LocalProxyState → LocalProxyState
normalize s =
    let profiles = normal_ports s.profiles in
    if not (is_empty s.active_profile_id) && not (any_profile profiles s.active_profile_id)
    then record { active_profile_id = []; profiles = profiles }
    else record { active_profile_id = s.active_profile_id; profiles = profiles }

unfoldable pub active_profile : LocalProxyState → Option LocalProxyProfile
active_profile s =
    if is_empty s.active_profile_id then none else find_profile s.profiles s.active_profile_id

-- `profiles.retain(|p| p.id != id)`
unfoldable pub without_profile : List LocalProxyProfile → Name → List LocalProxyProfile
without_profile [] id = []
without_profile (p ∷ profiles) id =
    if same_bytes p.id id then without_profile profiles id else p ∷ without_profile profiles id

unfoldable pub remove_profile : LocalProxyState → Name → LocalProxyState × Bool
remove_profile s id =
    let profiles = without_profile s.profiles id in
    (
      (if same_bytes s.active_profile_id id
          then record { active_profile_id = []; profiles = profiles }
          else record { active_profile_id = s.active_profile_id; profiles = profiles }),
      ltb (length profiles) (length s.profiles),
    )

pub record Database : Type 0 where
  pub main_password : Name
  pub main_device_id : Name
  pub dns : Name
  pub auto_restart_interval_hours : Option ℕ
  pub main_up_bytes : ℕ
  pub main_down_bytes : ℕ
  pub admin_id : Name
  pub bot_token : Name
  pub passwords : List (Name × PasswordEntry)
  pub devices : List (Name × ClientDevice)
  pub web_sessions : List (Name × ℕ)
  pub logging_active : Option Bool
  pub local_proxy : LocalProxyState

-- `Database::default()`
abbrev pub default : Database
default = record {
  main_password = [];
  main_device_id = [];
  dns = [];
  auto_restart_interval_hours = none;
  main_up_bytes = 0;
  main_down_bytes = 0;
  admin_id = [];
  bot_token = [];
  passwords = [];
  devices = [];
  web_sessions = [];
  logging_active = none;
  local_proxy = record { active_profile_id = []; profiles = [] };
}

abbrev pub default_auto_restart_interval_hours : ℕ
default_auto_restart_interval_hours = 0

-- `Database::auto_restart_interval_hours`
unfoldable pub restart_hours : Database → ℕ
restart_hours db = get_default default_auto_restart_interval_hours db.auto_restart_interval_hours

unfoldable pub set_auto_restart_interval_hours : Database → ℕ → Database
set_auto_restart_interval_hours db hours = record db { auto_restart_interval_hours = some hours }

abbrev pub unbind : ClientDevice → ClientDevice
unbind device = record device { bound_password = [] }

-- `for device in self.devices.values_mut()`, with the flag that says whether a test held.
unfoldable pub unbind_where :
    (ClientDevice → Bool) → List (Name × ClientDevice) → List (Name × ClientDevice) × Bool
unbind_where test [] = ([], false)
unbind_where test ((id, device) ∷ devices) =
    let (rest, changed) = unbind_where test devices in
    if test device then ((id, unbind device) ∷ rest, true) else ((id, device) ∷ rest, changed)

unfoldable pub clear_device_binding : Database → Name → Database × Bool
clear_device_binding db password =
    let (devices, changed) =
      unbind_where (λ device. same_bytes device.bound_password password) db.devices in
    (record db { devices = devices }, changed)

unfoldable pub is_dangling : Database → ClientDevice → Bool
is_dangling db device = not (
    is_empty device.bound_password
    || (same_bytes device.bound_password db.main_password
        || contains_key db.passwords device.bound_password))

unfoldable pub prune_dangling_device_bindings : Database → Database × Bool
prune_dangling_device_bindings db =
    let (devices, changed) = unbind_where (is_dangling db) db.devices in
    (record db { devices = devices }, changed)

unfoldable pub is_expired : ℕ → PasswordEntry → Bool
is_expired now entry = not (entry.expires_at == 0) && ltb entry.expires_at now

-- `format!("{a}.{b}.{c}.{i}")`
unfoldable pub address : ℕ × ℕ × ℕ → ℕ → Name
address (a, b, c) i =
    decimal a
    ++ (ascii "." ++ (decimal b ++ (ascii "." ++ (decimal c ++ (ascii "." ++ decimal i)))))

unfoldable pub is_used : List (Name × ClientDevice) → Name → Bool
is_used [] ip = false
is_used ((id, device) ∷ devices) ip = same_bytes device.ip ip || is_used devices ip

-- The loop of `get_next_ip`, with `left` addresses still to be tried from `i` on.
unfoldable pub next_ip_from : ℕ × ℕ × ℕ → List (Name × ClientDevice) → ℕ → ℕ → Option Name
next_ip_from prefix devices zero i = none
next_ip_from prefix devices (suc left) i =
    let rest = next_ip_from prefix devices left (i + 1) in
    if is_used devices (address prefix i) then rest else some (address prefix i)

unfoldable pub get_next_ip : ℕ × ℕ × ℕ → Database → Option Name
get_next_ip prefix db = next_ip_from prefix db.devices 249 2

unfoldable pub resolve_session_ip : Database → Name → Name → Option Name
resolve_session_ip db session_password device_id =
    elim (if is_empty device_id then none else get db.devices device_id) [
      | some device ↦ some device.ip
      | none ↦
          if same_bytes session_password db.main_password
          then none
          else elim (get db.passwords session_password) [
            | none ↦ none
            | some entry ↦
                if is_empty entry.device_id
                then none
                else map_option (λ (d : ClientDevice). d.ip) (get db.devices entry.device_id)
          ]
    ]
