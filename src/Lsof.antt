-- ===== src/Lsof.antt =====
-- HW1: a clone of lsof. What it reads of /proc is a parameter, one state of the system.
pub mod File
pub mod Filter
pub mod Process
use advanced_programmin.Prelude.{ℕ, String, Bool, Option, List}

pub record Stat : Type 0 where
  pub mode : ℕ
  pub ino : ℕ
  pub uid : ℕ

-- `readlink`: the text of the link, or the error.
pub data Link : Type 0 where
  target : String → Link
  eacces enoent other_error : Link

-- The system calls and the files that the program reads; `none` where a call fails.
pub record System : Type 0 where
  pub stat : String → Option Stat
  pub lstat : String → Option Stat
  pub readlink : String → Link
  -- the name of a user of the password file
  pub getpwuid : ℕ → String
  -- the first word, or the lines, of a file
  pub first_word : String → Option String
  pub lines : String → List String
  -- the entries of a directory: a name, and whether it is a directory
  pub opendir : String → Option (List (String × Bool))
  -- `regex_search` of <regex>: a text, a valid pattern
  pub regex_search : String → String → Bool
