-- ===== src/Audio/Sinks.antt =====
-- src/audio/FileSink.cpp and AudioAppSink.cpp. The disk gives a file's bytes; which names open for writing is a
-- parameter. No other program writes to the file.
pub mod Recording
pub mod Hdmi
mod Runs
use libcornrow.Base.{if◌then◌else◌, Text, text_eq, ℕ, Bool, Option, none, some, List, [], ◌++◌}
use libcornrow.Core.Buffer.{Buffer, contents, clear}
use libcornrow.Audio.Types.{AudioConf}
use mathlib.Core.Option

abbrev pub Disk : Type 0
Disk = Text → Option (List ℕ)

abbrev pub put : Text → List ℕ → Disk → Disk
put name bytes d n = if text_eq n name then some bytes else d n

-- `file` is the name under which `m_file` is open.
pub record FileSink : Type 0 where
  pub file_name : Text
  pub file : Option Text

abbrev pub new_file_sink : FileSink
new_file_sink = record { file_name = []; file = none }

-- `std::ofstream::write`, which does nothing on a closed stream
unfoldable pub write : List ℕ → Option Text → Disk → Disk
write bytes none d = d
write bytes (some n) d = elim (d n) [ none ↦ d | some old ↦ put n (old ++ bytes) d ]

unfoldable pub on_stop : FileSink → FileSink
on_stop s = record s { file = none }

module _ (opens : Text → Bool) where
  -- Opened for output, a file is truncated.
  unfoldable pub on_start : FileSink → Disk → FileSink × Disk
  unfolding on_stop
  on_start s d =
      if opens s.file_name
      then (record s { file = some s.file_name }, put s.file_name [] d)
      else (on_stop s, d)

  unfoldable pub set_file_name : Text → FileSink → Disk → FileSink × Disk
  unfolding on_start
  set_file_name name s d =
      let renamed = record s { file_name = name } in
      if text_eq s.file_name name
      then (s, d)
      else elim s.file [ none ↦ (renamed, d) | some _ ↦ on_start renamed d ]

  -- The configuration is returned as it came.
  unfoldable pub on_process : Buffer → FileSink → Disk → Buffer × FileSink × Disk
  unfolding on_start write clear
  on_process b s d =
      let opened : FileSink × Disk = elim s.file [ none ↦ on_start s d | some _ ↦ (s, d) ] in
      (clear b, opened.0, write (contents b) opened.0.file opened.1)

-- `AudioAppSink`: the callback gets the configuration and the buffer to read, and the sink returns the former.
unfoldable pub set_process_callback :
    {A : Type 0} → (AudioConf → Buffer → A → A) → Option (AudioConf → Buffer → A → A)
set_process_callback f = some f

unfoldable pub app_on_process :
    {A : Type 0} → Option (AudioConf → Buffer → A → A) → AudioConf → Buffer → A → AudioConf × A
app_on_process none c b w = (c, w)
app_on_process (some f) c b w = (c, f c b w)
