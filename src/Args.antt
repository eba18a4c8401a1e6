-- ===== src/Args.antt =====
-- src/args.h: the names of the options and of the logging levels, and the output file's name.
pub mod Laws
use jcoz.Base.{
  ℕ, Bool, ◌||◌, ◌++◌, Option, none, some, ◌==◌, if◌then◌else◌, get_or, take, Result, ok, halt,
  exits, invalid_logging_level,
}
use jcoz.Text.{Bytes, codes, text_eq, find_byte}

pub data ProfilerOption : Type 0 where
  unknown search_scopes ignored_scopes progress_point end_to_end : ProfilerOption
  warmup fix_exp logging_level output_file : ProfilerOption

unfoldable pub from_string : Bytes → ProfilerOption
from_string option =
    if text_eq option (codes "pkg") || text_eq option (codes "search")
    then search_scopes
    else if text_eq option (codes "ignore")
    then ignored_scopes
    else if text_eq option (codes "progress-point")
    then progress_point
    else if text_eq option (codes "end-to-end")
    then end_to_end
    else if text_eq option (codes "warmup")
    then warmup
    else if text_eq option (codes "fix-exp")
    then fix_exp
    else if text_eq option (codes "logging-level")
    then logging_level
    else if text_eq option (codes "output-file")
    then output_file
    else unknown

-- What print_usage writes, before report_error ends the process.
abbrev pub usage : Bytes
usage =
    codes "usage: java -agentpath:<absolute_path_to_agent>="
    ++ codes "pkg=<package_name>_"
    ++ codes "search=<package_name>|<another_package_name> (optional if pkg is specified)"
    ++ codes "progress-point=<class:line_no>_"
    ++ codes "ignore=<package_name>|<another_package_name> (optional)"
    ++ codes "end-to-end (optional)_"
    ++ codes "fix-exp (optional)_"
    ++ codes "warmup=<warmup_time_ms> (optional - default 0 ms)"
    ++ codes "logging-level=<desired_logging_level> (optional - default info)"
    ++ codes "output-file=<output_filename> (optional - default jcoz-output.csv)"
    ++ codes "\n"
    ++ codes "progress-point class MUST follow JVM spec class signature conventions"
    ++ codes "e.g. java.lang.String has the signature Ljava/lang/String"
    ++ codes "\n"

-- spdlog::level::level_enum
pub data Level : Type 0 where
  trace debug info warn err critical off : Level

-- The code after a `case`: the level if the whole input is its name, else report_error.
abbrev pub level_if : Bool → Level → Result Level
level_if b l = if b then ok l else halt (exits invalid_logging_level)

-- front() of an empty input reads its terminating zero.
unfoldable pub parse_logging_level : Bytes → Result Level
parse_logging_level input =
    let front = get_or input 0 0 in
    if front == b't'
    then level_if (text_eq input (codes "trace")) trace
    else if front == b'd'
    then level_if (text_eq input (codes "debug")) debug
    else if front == b'i'
    then level_if (text_eq input (codes "info")) info
    else if front == b'w'
    then level_if (text_eq input (codes "warn")) warn
    else if front == b'e'
    then level_if (text_eq input (codes "error")) err
    else if front == b'c'
    then level_if (text_eq input (codes "critical")) critical
    else if front == b'o'
    then level_if (text_eq input (codes "off")) off
    else halt (exits invalid_logging_level)

-- `stamp` is what std::put_time prints of the current time.
unfoldable pub set_output_file : Bytes → Bytes → Bytes
set_output_file stamp output = elim (find_byte b'.' output) [
  | some position ↦ take position output ++ (stamp ++ codes ".csv")
  | none ↦ output ++ (stamp ++ codes ".csv")
]
