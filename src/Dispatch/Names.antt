-- ===== src/Dispatch/Names.antt =====
-- The actions that only one name of the table is bound to.
use fep3_base_utilities.Prelude.{
  Bool, true, false, not, ◌&&◌, ◌||◌, some, List, [], ◌∷◌, ◌≡◌, ◌≢◌, Text, str_eq, str_eq_iff,
  arith,
}
use fep3_base_utilities.CommandTable.{ActionFunction, ControlCommand, control_commands}
use fep3_base_utilities.Dispatch.{find_in, find_command}

-- The commands with such an action have that name.
abbrev pub owns : (ActionFunction → Bool) → Text → List ControlCommand → Bool
owns test owner [] = true
owns test owner (cmd ∷ cmds) =
    (not (test cmd.action) || str_eq owner cmd.name) && owns test owner cmds

find_in-owns :
    (test : ActionFunction → Bool) (owner name : Text) (cmds : List ControlCommand)
    (cmd : ControlCommand)
    → owns test owner cmds ≡ true
    → find_in name cmds ≡ some cmd
    → ((not (test cmd.action) || str_eq owner cmd.name) ≡ true) × (str_eq cmd.name name ≡ true)
find_in-owns test owner name [] cmd h e = cc
find_in-owns test owner name (c ∷ cmds) cmd h e =
    ground (arith, find_in-owns test owner name cmds cmd)

-- A command that is found under another name has another action.
pub find_command-owns :
    (test : ActionFunction → Bool) (owner name : Text) (cmd : ControlCommand)
    → owns test owner control_commands ≡ true
    → name ≢ owner
    → find_command name ≡ some cmd
    → test cmd.action ≡ false
unfolding find_command
find_command-owns test owner name cmd h other found =
    let both = find_in-owns test owner name control_commands cmd h found in
    ground (arith, both, str_eq_iff cmd.name name, str_eq_iff owner cmd.name)
