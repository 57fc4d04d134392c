-- ===== src/Platform.antt =====
-- The operating systems that psutil/_common.py tells apart, as its module constants.
use psutil.Prelude.{Bool, true, false}

pub data Platform : Type 0 where
  linux macos windows freebsd openbsd netbsd sunos aix : Platform

-- POSIX
abbrev pub is_posix : Platform → Bool
is_posix Platform.windows = false
is_posix _ = true

-- WINDOWS
abbrev pub is_windows : Platform → Bool
is_windows Platform.windows = true
is_windows _ = false

-- OPENBSD
abbrev pub is_openbsd : Platform → Bool
is_openbsd Platform.openbsd = true
is_openbsd _ = false

-- LINUX
abbrev pub is_linux : Platform → Bool
is_linux Platform.linux = true
is_linux _ = false
