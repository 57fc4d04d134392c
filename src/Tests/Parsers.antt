-- ===== src/Tests/Parsers.antt =====
-- Command lines, environments and memory tables.
use psutil.Prelude.{
  ◌≡◌, ◌≢◌, refl, true, false, none, some, List, [], ◌∷◌, Result, ok, err, arith, ℕ_discrete,
}
use psutil.Prelude.Dict.{lookup}
use psutil.Prelude.Int.{pos}
use psutil.Text.{Bytes, b, contains, starts_with, strip, words, to_int, digit}
use psutil.Text.Split.{join_end}
use psutil.Linux.Files.{Read, content, failed, OsError, value}
use psutil.Linux.Cmdline.{cmdline, cmdline_of, read_text, lines_from}
use psutil.Linux.Cmdline.Args.{cmdline-join_end}
use psutil.Environ.{Environ, parse_environ_block, same_bytes}
use psutil.Environ.RoundTrip.{
  block, IsEnviron, parse_environ_block-block, parse_environ_block_total,
}
use psutil.Linux.Memory.{Mems, Svmem, virtual_memory, get, clamp}
use psutil.Linux.Memory.Bounds.{Fits, virtual_memory-Fits}

abbrev no_stat : Read Bytes
no_stat = failed OsError.not_found

cmdline-join_end_example :
    cmdline 42 no_stat (join_end 0 (b "ls" ∷ b "my file" ∷ (b'a' ∷ 13 ∷ 10 ∷ 13 ∷ []) ∷ [] ∷ []))
    ≡ value (b "ls" ∷ b "my file" ∷ (b'a' ∷ 10 ∷ 10 ∷ []) ∷ [] ∷ [])
unfolding read_text lines_from
cmdline-join_end_example =
    cmdline-join_end 42 no_stat (b "ls") (b "my file" ∷ (b'a' ∷ 13 ∷ 10 ∷ 13 ∷ []) ∷ [] ∷ [])
      (ground arith)

-- A program with a blank in its path and no arguments is split.
single_split :
    cmdline 42 no_stat (join_end 0 (b "/opt/my app" ∷ [])) ≡ value (b "/opt/my" ∷ b "app" ∷ [])
unfolding cmdline cmdline_of read_text lines_from join_end
single_split = refl

abbrev environ : Environ
environ = (b "HOME", b "/root") ∷ (b "OPTS", b "a=b") ∷ (b "EMPTY", []) ∷ []

environ-IsEnviron : IsEnviron [] environ
unfolding lookup contains same_bytes ℕ_discrete
environ-IsEnviron = (
  (λ e. cc),
  refl,
  refl,
  refl,
  refl,
  ((λ e. cc), refl, refl, refl, refl, ((λ e. cc), refl, refl, refl, refl, tt)),
)

parse_environ_block-block_example :
    parse_environ_block false (block environ (b "rest")) ≡ some environ
parse_environ_block-block_example = parse_environ_block-block environ (b "rest") environ-IsEnviron

parse_environ_block_total_run : parse_environ_block true (b "no equals sign") ≢ none
parse_environ_block_total_run = parse_environ_block_total true (b "no equals sign")

abbrev mems : Mems
mems =
    (b "MemTotal:", 8192)
    ∷ (b "MemFree:", 1024)
    ∷ (b "Cached:", 2048)
    ∷ (b "Active(file):", 1024)
    ∷ (b "Inactive(file):", 512)
    ∷ (b "SReclaimable:", 256)
    ∷ []

abbrev zoneinfo : Read (List Bytes)
zoneinfo = content (b "Node 0, zone" ∷ b "  low   3" ∷ [])

abbrev or_empty : Result Svmem → Svmem
or_empty (ok v) = v
or_empty (err e) = record {
  total = 0;
  available = 0;
  percent = pos 0;
  used = pos 0;
  free = 0;
  active = 0;
  inactive = 0;
  buffers = 0;
  cached = 0;
  shared = 0;
  slab = 0;
}

abbrev svmem : Svmem
svmem = or_empty (virtual_memory 64 zoneinfo mems)

virtual_memory-Fits_example : Fits svmem
unfolding virtual_memory get lookup same_bytes ℕ_discrete starts_with strip words to_int digit clamp
virtual_memory-Fits_example = virtual_memory-Fits 64 zoneinfo mems svmem refl (omega arith)
