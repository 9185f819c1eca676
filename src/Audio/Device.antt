-- ===== src/Audio/Device.antt =====
-- src/audio/AudioDeviceInfo.cpp, and `PortAudioSink::outputDevices`, over the devices that PortAudio lists.
use libcornrow.Base.{
  ◌==◌, if◌then◌else◌, Text, codes, starts_with, ℕ, ◌%◌, ◌^◌, ◌||◌, List, [], ◌∷◌,
}

pub data AudioDeviceType : Type 0 where
  invalid default spdif hdmi : AudioDeviceType

unfoldable pub type_text : AudioDeviceType → Text
type_text AudioDeviceType.invalid = codes "INVALID"
type_text AudioDeviceType.default = codes "Default"
type_text AudioDeviceType.spdif = codes "SPDIF"
type_text AudioDeviceType.hdmi = codes "HDMI"

-- The tests of the constructor; `name.substr(0, n) == text` of a text of `n` characters
unfoldable pub type_of_name : Text → AudioDeviceType
type_of_name name =
    if starts_with (codes "hdmi") name
    then AudioDeviceType.hdmi
    else if starts_with (codes "iec958") name || starts_with (codes "spdif") name
    then AudioDeviceType.spdif
    else if starts_with (codes "default") name
    then AudioDeviceType.default
    else AudioDeviceType.invalid

pub record AudioDeviceInfo : Type 0 where
  pub name : Text
  pub max_channels : ℕ
  pub desc : Text
  pub device_type : AudioDeviceType

unfoldable pub audio_device_info : Text → Text → AudioDeviceInfo
unfolding type_of_name
audio_device_info name desc = record {
  name = name;
  max_channels = 0;
  desc = desc;
  device_type = type_of_name name;
}

-- A device of PortAudio: its name and its output channels. `maxChannels` has 16 bits.
unfoldable pub output_devices : List (Text × ℕ) → List AudioDeviceInfo
unfolding audio_device_info
output_devices [] = []
output_devices ((name, channels) ∷ rest) =
    let others = output_devices rest in
    if channels == 0
    then others
    else record (audio_device_info name []) { max_channels = channels % 2 ^ 16 } ∷ others
