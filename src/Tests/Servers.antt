-- ===== src/Tests/Servers.antt =====
-- A server with two clients, and the commands that the theorems on handlers are about.
use fep3_base_utilities.Prelude.{
  ℕ, suc, ◌≤◌, true, false, some, List, [], ◌∷◌, ◌≡◌, refl, Text, codes, length,
}
use fep3_base_utilities.Session.{Session, new_session}
use fep3_base_utilities.Commands.Properties.Moves.{NeverNull}
use fep3_base_utilities.Server.{
  Process, Stage, Reach, start, later, accept, begin, leave, unlist, signal, starting, accepted,
  staged, unlisted, signalled, main_step, add_connection, remove_connection, run_in, main_returned,
}
use fep3_base_utilities.Lexer.{parse_line, parse_words, get_next_word, c_str}
use fep3_base_utilities.Quoting.{un_escape}
use fep3_base_utilities.Interactive.{returns, typed, ended, read_messages}
use fep3_base_utilities.Server.{interactive_loop_cli}
use fep3_base_utilities.Output.{generic_error, write_error}
use fep3_base_utilities.Effect.{raised}
use fep3_base_utilities.Server.Exceptions.{interactive_loop_cli-thrown}
use fep3_base_utilities.Server.Invariant.{Inv, Reach-Inv}
use fep3_base_utilities.Server.Shutdown.{
  main_steps, said_to, main_steps-goodbye, stay, by_main, Goes-le-length,
}
use fep3_base_utilities.Tests.Libraries.{demo, alpha}

-- Two clients come, the first one goes, and a signal asks for the shutdown.
abbrev two_clients : Process ⦃env = demo⦄
two_clients = accepted ⦃env = demo⦄ true (accepted ⦃env = demo⦄ true (starting ⦃env = demo⦄ true 0))

abbrev one_gone : Process ⦃env = demo⦄
one_gone =
    unlisted ⦃env = demo⦄ 0
      (staged ⦃env = demo⦄ 0 Stage.left (staged ⦃env = demo⦄ 0 Stage.reading two_clients))

abbrev requested : Process ⦃env = demo⦄
requested = signalled ⦃env = demo⦄ one_gone

requested-Reach : Reach ⦃env = demo⦄ 5 true 0 requested
unfolding accepted staged unlisted
requested-Reach =
    later
      (later
        (later
          (later (later (later start refl (accept refl)) refl (accept refl)) refl (begin 0 refl))
          refl (leave 0 refl))
        refl (unlist 0 refl))
      refl signal

never : NeverNull ⦃env = demo⦄
never conf node w = λ h. cc

Reach-Inv_example : Inv ⦃env = demo⦄ requested
Reach-Inv_example = Reach-Inv ⦃env = demo⦄ never 5 requested-Reach

main_steps-goodbye_example :
    Reach ⦃env = demo⦄ 5 true 0
      (main_steps ⦃env = demo⦄ (suc (suc (length requested.active_connections))) requested)
    × ((main_steps ⦃env = demo⦄ (suc (suc (length requested.active_connections))) requested).ending
        ≡ some main_returned)
    × ((i : ℕ)
        → ((main_steps ⦃env = demo⦄
              (suc (suc (length requested.active_connections)))
              requested).session
            i).output
          ≡ said_to ⦃env = demo⦄ requested.active_connections i (requested.session i))
unfolding signalled unlisted staged accepted
main_steps-goodbye_example = main_steps-goodbye ⦃env = demo⦄ never requested-Reach refl refl refl

abbrev one_left : List ℕ
one_left = 1 ∷ []

abbrev leaving : Process ⦃env = demo⦄
leaving = main_step ⦃env = demo⦄ requested

Goes-le-length_example : 1 ≤ length one_left
unfolding main_step signalled unlisted staged accepted remove_connection add_connection run_in
Goes-le-length_example =
    Goes-le-length ⦃env = demo⦄ {rounds = 5} {json_mode = true} {v = leaving} one_left refl
      (by_main stay refl) refl

-- Two sessions.
abbrev fresh : Session ℕ Text
fresh = new_session ⦃env = demo⦄ false 0

abbrev knowing : Session ℕ Text
knowing = record fresh { systems = (alpha, alpha) ∷ [] }

-- The typed line and the message `discoverSystem down`, which the library refuses.
down_line :
    parse_line (codes "discoverSystem down") false ≡ codes "discoverSystem" ∷ codes "down" ∷ []
unfolding codes parse_line parse_words get_next_word c_str un_escape
down_line = refl

interactive_loop_cli-thrown_example :
    ((interactive_loop_cli ⦃env = demo⦄ 5
        (returns (typed (codes "discoverSystem down")) ∷ returns ended ∷ [])
        fresh).0
      ≡ raised (codes "no system down"))
    × (read_messages ⦃env = demo⦄ 5 (codes "discoverSystem down" ∷ codes "help" ∷ []) fresh
        ≡ read_messages ⦃env = demo⦄ 5
            (codes "help" ∷ [])
            (write_error ⦃env = demo⦄
              (codes "discoverSystem")
              (codes "no system down")
              generic_error
              []
              (record fresh { last_system_name_used = codes "down" })).1)
unfolding codes
interactive_loop_cli-thrown_example =
    interactive_loop_cli-thrown ⦃env = demo⦄ 5 (codes "discoverSystem down") (codes "down")
      (codes "no system down") (returns ended ∷ []) (codes "help" ∷ []) fresh 1 0 down_line refl
      refl
