-- ===== src/Command/Uname.antt =====
-- pisshoff-server/src/command/uname.rs. A set of flags is a record of them.
pub mod Orders
use pisshoff.Base.{
  ℕ, Bool, true, false, not, ◌&&◌, ◌||◌, List, [], ◌∷◌, ◌++◌, Bytes, bytes, beq, is_empty,
  if◌then◌else◌,
}
use pisshoff.Session.{ThrusshSession, ChannelId}
use pisshoff.Connection.{ConnectionState}
use pisshoff.Command.Results.{exit, Ran, Arg, operand, long, short, argparse}

pub record ToPrint : Type 0 where
  pub kernel_name : Bool
  pub node_name : Bool
  pub kernel_release : Bool
  pub kernel_version : Bool
  pub machine : Bool
  pub processor : Bool
  pub platform : Bool
  pub operating_system : Bool

abbrev pub none_to_print : ToPrint
none_to_print = record {
  kernel_name = false;
  node_name = false;
  kernel_release = false;
  kernel_version = false;
  machine = false;
  processor = false;
  platform = false;
  operating_system = false;
}

abbrev pub all_to_print : ToPrint
all_to_print = record {
  kernel_name = true;
  node_name = true;
  kernel_release = true;
  kernel_version = true;
  machine = true;
  processor = true;
  platform = true;
  operating_system = true;
}

-- `|=`
abbrev pub union : ToPrint → ToPrint → ToPrint
union a b = record {
  kernel_name = a.kernel_name || b.kernel_name;
  node_name = a.node_name || b.node_name;
  kernel_release = a.kernel_release || b.kernel_release;
  kernel_version = a.kernel_version || b.kernel_version;
  machine = a.machine || b.machine;
  processor = a.processor || b.processor;
  platform = a.platform || b.platform;
  operating_system = a.operating_system || b.operating_system;
}

abbrev pub is_none : ToPrint → Bool
is_none a = not (
    a.kernel_name || a.node_name || a.kernel_release || a.kernel_version || a.machine || a.processor
    || a.platform || a.operating_system)

abbrev pub version_string : Bytes
version_string =
    bytes
      "uname (GNU coreutils) 8.32\nCopyright (C) 2020 Free Software Foundation, Inc.\nLicense GPLv3+: GNU GPL version 3 or later <https://gnu.org/licenses/gpl.html>.\nThis is free software: you are free to change and redistribute it.\nThere is NO WARRANTY, to the extent permitted by law.\n\nWritten by David MacKenzie.\n"

abbrev pub help_string : Bytes
help_string =
    bytes
      "Usage: uname [OPTION]...\nPrint certain system information.  With no OPTION, same as -s.\n\n  -a, --all                print all information, in the following order,\n                             except omit -p and -i if unknown:\n  -s, --kernel-name        print the kernel name\n  -n, --nodename           print the network node hostname\n  -r, --kernel-release     print the kernel release\n  -v, --kernel-version     print the kernel version\n  -m, --machine            print the machine hardware name\n  -p, --processor          print the processor type (non-portable)\n  -i, --hardware-platform  print the hardware platform (non-portable)\n  -o, --operating-system   print the operating system\n      --help     display this help and exit\n      --version  output version information and exit\n\nGNU coreutils online help: <https://www.gnu.org/software/coreutils/>\nReport any translation bugs to <https://translationproject.org/team/>\nFull documentation <https://www.gnu.org/software/coreutils/uname>\nor available locally via: info '(coreutils) uname invocation'\n"

-- What one argument does: it adds flags (and may turn on the filter), or it ends the call with an
-- output and an exit status.
pub data Action : Type 0 where
  add : ToPrint → Action
  add_all : Action
  stop : Bytes → ℕ → Action

abbrev try_help : Bytes
try_help = bytes "'\nTry 'uname --help' for more information.\n"

unfoldable pub on_short : Bytes → Action
on_short c =
    if beq c (bytes "a")
    then add_all
    else if beq c (bytes "s")
    then add (record none_to_print { kernel_name = true })
    else if beq c (bytes "n")
    then add (record none_to_print { node_name = true })
    else if beq c (bytes "r")
    then add (record none_to_print { kernel_release = true })
    else if beq c (bytes "v")
    then add (record none_to_print { kernel_version = true })
    else if beq c (bytes "m")
    then add (record none_to_print { machine = true })
    else if beq c (bytes "p")
    then add (record none_to_print { processor = true })
    else if beq c (bytes "i")
    then add (record none_to_print { platform = true })
    else if beq c (bytes "o")
    then add (record none_to_print { operating_system = true })
    else stop (bytes "uname: invalid option -- '" ++ (c ++ try_help)) 1

unfoldable pub on_long : Bytes → Action
on_long s =
    if beq s (bytes "all")
    then add_all
    else if beq s (bytes "kernel-name")
    then add (record none_to_print { kernel_name = true })
    else if beq s (bytes "nodename")
    then add (record none_to_print { node_name = true })
    else if beq s (bytes "kernel-release")
    then add (record none_to_print { kernel_release = true })
    else if beq s (bytes "kernel-version")
    then add (record none_to_print { kernel_version = true })
    else if beq s (bytes "machine")
    then add (record none_to_print { machine = true })
    else if beq s (bytes "processor")
    then add (record none_to_print { processor = true })
    else if beq s (bytes "hardware-platform")
    then add (record none_to_print { platform = true })
    else if beq s (bytes "operating-system")
    then add (record none_to_print { operating_system = true })
    else if beq s (bytes "help")
    then stop help_string 0
    else if beq s (bytes "version")
    then stop version_string 0
    else stop (bytes "uname: unrecognized option '--" ++ (s ++ try_help)) 1

unfoldable pub action : Arg → Action
action (short c) = on_short c
action (long s) = on_long s
action (operand s) = stop (bytes "uname: extra operand '" ++ (s ++ try_help)) 1

-- The macro `write!`: a blank between two fields.
write_field : Bool → Bytes → Bytes → Bytes
write_field wanted v out =
    if wanted then (if is_empty out then v else out ++ (bytes " " ++ v)) else out

pub print : ToPrint → Bool → Bytes
unfolding write_field
print p filter_unknown =
    let p = if is_none p then record p { kernel_name = true } else p in
    let out = write_field p.kernel_name (bytes "Linux") [] in
    let out = write_field p.node_name (bytes "cd5079c0d642") out in
    let out = write_field p.kernel_release (bytes "5.15.49") out in
    let out =
      write_field p.kernel_version (bytes "#1 SMP PREEMPT Tue Sep 13 07:51:32 UTC 2022") out in
    let out = write_field p.machine (bytes "x86_64") out in
    let out = write_field (p.processor && not filter_unknown) (bytes "unknown") out in
    let out = write_field (p.platform && not filter_unknown) (bytes "unknown") out in
    let out = write_field p.operating_system (bytes "GNU/Linux") out in out ++ bytes "\n"

-- The loop over the arguments, and what is printed at its end.
pub run : ToPrint → Bool → List Arg → Bytes × ℕ
run p filter_unknown [] = (print p filter_unknown, 0)
run p filter_unknown (arg ∷ args) = elim (action arg) [
  | add q ↦ run (union p q) filter_unknown args
  | add_all ↦ run (union p all_to_print) true args
  | stop out code ↦ (out, code)
]

unfoldable pub execute : List Bytes → Bytes × ℕ
unfolding run print action on_short on_long argparse
execute params = run none_to_print false (argparse params)

pub data Uname : Type 0 where
  uname : Uname

module _ {S : Type 0} ⦃t : ThrusshSession S⦄ where
  unfoldable pub new : ConnectionState → List Bytes → ChannelId → S → Ran Uname S
  new c params ch s =
      let (out, exit_code) = execute params in (exit exit_code, c, t.data_to ch out s)

  unfoldable pub stdin : Uname → ConnectionState → ChannelId → Bytes → S → Ran Uname S
  stdin cmd c ch input s = (exit 0, c, s)
