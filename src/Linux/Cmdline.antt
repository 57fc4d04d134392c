-- ===== src/Linux/Cmdline.antt =====
-- psutil/_pslinux.py: `Process.cmdline`;
-- psutil/_common.py: what reading a file of `open_text` does to its line ends.
pub mod Args
use psutil.Prelude.{ℕ, suc, Bool, true, false, ◌&&◌, List, [], ◌∷◌, ◌==◌, if◌then◌else◌}
use psutil.Text.{Bytes, contains, split, ends_with, all_but_last}
use psutil.Linux.Files.{Read, Raised, Outcome, value, raised, known, is_zombie}
use psutil.Prelude.{Error}

abbrev pub is_single : List Bytes → Bool
is_single (w ∷ []) = true
is_single _ = false

-- Of a text that is not empty: `args` is what is left when a separator at the end is cut off.
abbrev pub split_args : ℕ → Bytes → List Bytes
split_args sep args =
    if (sep == 0) && is_single (split sep args) && contains b' ' args
    then split b' ' args
    else split sep args

unfoldable pub separator : Bytes → ℕ
unfolding ends_with
separator text = if ends_with 0 text then 0 else b' '

unfoldable pub args_of : Bytes → List Bytes
unfolding separator ends_with all_but_last split contains
args_of text =
    let sep = separator text in
    if ends_with sep text then split_args sep (all_but_last text) else split_args sep text

-- `f.read()` of a file in text mode with the default `newline`: CRLF and CR are read as LF. The flag tells
-- whether the byte before was CR. What is decoded is the list of its bytes here, which `surrogateescape`
-- keeps.
unfoldable pub lines_from : Bool → Bytes → Bytes
lines_from after_cr [] = []
lines_from after_cr (c ∷ s) =
    let rest = lines_from (c == 13) s in
    if c == 13 then 10 ∷ rest else if c == 10 && after_cr then rest else c ∷ rest

unfoldable pub read_text : Bytes → Bytes
unfolding lines_from
read_text = lines_from false

unfoldable pub cmdline_of : ℕ → Read Bytes → Bytes → Outcome (List Bytes)
unfolding args_of is_zombie
cmdline_of pid stat [] =
    if is_zombie stat then raised (known (Error.zombie_process pid)) else value []
cmdline_of pid stat (c ∷ text) = value (args_of (c ∷ text))

-- `cmdline`, of the bytes of the process's file and of its stat file.
unfoldable pub cmdline : ℕ → Read Bytes → Bytes → Outcome (List Bytes)
unfolding cmdline_of read_text
cmdline pid stat file = cmdline_of pid stat (read_text file)
