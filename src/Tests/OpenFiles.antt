-- ===== src/Tests/OpenFiles.antt =====
-- The modes of open files, and a file that none describes.
use psutil.Prelude.{◌≡◌, refl, true, false, Error, [], ◌∷◌, ok}
use psutil.Text.{b, starts_with, words, to_int, digit, strip}
use psutil.Linux.Files.{content, failed, OsError, value, raised, known}
use psutil.Linux.OpenFiles.{
  Fd, OpenFile, look_at_all, file_flags_to_mode, open_files, replace_first, replace_w_plus,
  isfile_strict,
}
use psutil.Linux.OpenFiles.Modes.{IsNeither, open_files-IsNeither}

-- O_RDONLY, O_WRONLY, O_RDWR, and the last two with O_APPEND.
modes :
    (file_flags_to_mode 0 ≡ ok (b "r"))
    × (file_flags_to_mode 1 ≡ ok (b "w"))
    × (file_flags_to_mode 2 ≡ ok (b "r+"))
    × (file_flags_to_mode 1025 ≡ ok (b "a"))
    × (file_flags_to_mode 1026 ≡ ok (b "a+"))
unfolding file_flags_to_mode replace_first replace_w_plus starts_with
modes = (refl, refl, refl, refl, refl)

abbrev log : Fd
log = record {
  fd = 3;
  link = content (b "/var/log/x");
  stat = content true;
  info = content (b "pos: 17", b "flags: 02001");
}

abbrev disk : Fd
disk = record {
  fd = 4;
  link = content (b "/tmp/disk");
  stat = content true;
  info = content (b "pos: 0", b "flags: 0100003");
}

abbrev log_read : OpenFile
log_read = record { path = b "/var/log/x"; fd = 3; position = 17; mode = b "a"; flags = 1025 }

one_file : open_files (failed OsError.not_found) (log ∷ []) ≡ value (log_read ∷ [])
unfolding open_files isfile_strict file_flags_to_mode replace_first replace_w_plus starts_with words
    to_int digit strip
one_file = refl

disk-IsNeither : IsNeither disk
unfolding starts_with words to_int digit strip
disk-IsNeither = record {
  path = b "/tmp/disk";
  first = b "pos: 0";
  second = b "flags: 0100003";
  p = b "0";
  position = 0;
  f = b "0100003";
  flags = 32771;
  link_eq = refl;
  absolute = refl;
  regular = refl;
  info_eq = refl;
  p_eq = refl;
  position_eq = refl;
  f_eq = refl;
  flags_eq = refl;
  access = refl;
}

open_files-IsNeither_example :
    open_files (content tt) (log ∷ disk ∷ []) ≡ raised (known Error.key_error)
unfolding isfile_strict file_flags_to_mode replace_first replace_w_plus starts_with words to_int
    digit strip look_at_all
open_files-IsNeither_example =
    open_files-IsNeither (content tt) (log ∷ []) [] disk (log_read ∷ [], false) disk-IsNeither refl
