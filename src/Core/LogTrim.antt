-- ===== src/Core/LogTrim.antt =====
-- src/core/log_trim.go: large log files are cut to their newest lines. A file is its bytes, and what the
-- system calls answer is part of the input.
pub mod Laws
use mcpyeahyouknowme.Prelude.{
  ℕ, ◌-◌, ◌*◌, String, Bool, true, false, ◌||◌, Option, none, some, List, [], ◌∷◌, if◌then◌else◌,
  ◌==◌, nat_eq, leb, ltb, length, take, drop,
}

abbrev pub Bytes : Type 0
Bytes = List ℕ

abbrev pub log_trim_threshold_bytes : ℕ
log_trim_threshold_bytes = 5 * 1024 * 1024

abbrev pub log_keep_tail_bytes : ℕ
log_keep_tail_bytes = 1 * 1024 * 1024

-- What goes wrong, if anything: `stat` and `open` are errors of os.Stat, other than "not exist", and of
-- os.Open; `read_at` says how much ReadAt reads and its error other than EOF; `reopen` and `write` are
-- errors of os.OpenFile and of the last write, which leaves what it has written.
pub record Calls : Type 0 where
  pub stat : Option String
  pub open_file : Option String
  pub read_size : ℕ
  pub read_at : Option String
  pub reopen : Option String
  pub written : ℕ
  pub write : Option String

-- What follows the first line feed, or all if there is none.
unfoldable pub after_newline : Bytes → Bytes → Bytes
after_newline all [] = all
after_newline all (b ∷ bytes) =
    let later = after_newline all bytes in if b == 10 then bytes else later

-- The tail that is kept, from the bytes that were read.
abbrev pub tail_of : ℕ → Bytes → Bytes
tail_of start read = if ltb 0 start then after_newline read read else read

unfoldable pub write_tail : Calls → Bytes → Bytes → Bytes × Option String
write_tail calls old tail = elim calls.reopen [
  | some e ↦ (old, some e)
  | none ↦ elim calls.write [ some e ↦ (take calls.written tail, some e) | none ↦ (tail, none) ]
]

-- TrimLogFilePath on a file, or on a path where there is none: the file afterwards, and the error.
unfoldable pub trim_log_file_path : Calls → ℕ → ℕ → Option Bytes → Option Bytes × Option String
unfolding after_newline
trim_log_file_path calls threshold keep_tail none = (none, calls.stat)
trim_log_file_path calls threshold keep_tail (some file) = elim calls.stat [
  | some e ↦ (some file, some e)
  | none ↦
      if leb (length file) threshold || leb keep_tail 0
      then (some file, none)
      else elim calls.open_file [
        | some e ↦ (some file, some e)
        | none ↦
            let start = length file - keep_tail in
            elim calls.read_at [
              | some e ↦ (some file, some e)
              | none ↦
                  let (file', e) =
                    write_tail calls file
                      (tail_of start (take calls.read_size (drop start file))) in
                  (some file', e)
            ]
      ]
]
