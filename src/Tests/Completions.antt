-- ===== src/Tests/Completions.antt =====
-- Completions, and the options of the program, on the libraries of the tests.
use fep3_base_utilities.Prelude.{ℕ, false, [], ◌∷◌, map, ◌≡◌, refl, Text, codes, any}
use fep3_base_utilities.Quoting.{is_space}
use fep3_base_utilities.Lexer.{is_quote, parse_line, parse_words, get_next_word, c_str}
use fep3_base_utilities.Lexer.Spaced.{spaced}
use fep3_base_utilities.Effect.{faulted, pure, ◌>>=◌}
use fep3_base_utilities.Env.{Env}
use fep3_base_utilities.SystemMap.{SystemMap}
use fep3_base_utilities.Session.{Session, new_session}
use fep3_base_utilities.Dispatch.{process_commandline}
use fep3_base_utilities.Completion.{completed_lines, command_completion, complete_tokens}
use fep3_base_utilities.Completion.Offers.{parse_line-completed_lines}
use fep3_base_utilities.Completion.Quiet.{IsQuiet, command_completion-IsQuiet}
use fep3_base_utilities.Program.{
  usage, is_json, main_until_loop, course_behind, main_until_loop-course_behind,
}
use fep3_base_utilities.Tests.Libraries.{demo, alpha, beta}

abbrev fresh_session : Session ℕ Text
fresh_session = new_session ⦃env = demo⦄ false 0

-- An empty line has no token, and its first token is read.
command_completion-nothing :
    command_completion ⦃env = demo⦄ [] fresh_session ≡ (faulted, fresh_session)
unfolding command_completion complete_tokens parse_line parse_words get_next_word c_str
command_completion-nothing = refl

abbrev two_systems : SystemMap ℕ
two_systems = (alpha, 1) ∷ (beta, 2) ∷ []

-- The libraries of the tests, with the words joined as a_util does.
abbrev joining : Env
joining = record demo { join = λ words between. spaced words }

parse_line-completed_lines_example :
    map
      (λ line. parse_line line false)
      (completed_lines ⦃env = joining⦄ (codes "loadSystem" ∷ []) (codes "my system" ∷ []))
    ≡ (codes "loadSystem" ∷ codes "my system" ∷ []) ∷ []
unfolding codes is_space is_quote
parse_line-completed_lines_example =
    parse_line-completed_lines ⦃env = joining⦄ (codes "loadSystem") [] (codes "my system" ∷ [])
      (λ words. refl) ((refl, refl), tt) ((refl, refl), tt)

command_completion-IsQuiet_example :
    IsQuiet ⦃env = demo⦄
      (command_completion ⦃env = demo⦄ (b'l' ∷ codes "oadSystem ") fresh_session)
      fresh_session
command_completion-IsQuiet_example =
    command_completion-IsQuiet ⦃env = demo⦄ b'l' (codes "oadSystem ") fresh_session (λ h. cc)

main_until_loop-course_behind_example :
    (main_until_loop ⦃env = demo⦄ 5 (codes "--json" ∷ codes "-e" ∷ codes "help" ∷ []) 0
      ≡ (process_commandline ⦃env = demo⦄ 5 (codes "help" ∷ []) >>= λ result.
            pure (course_behind (codes "--json" ∷ []) result))
          (new_session ⦃env = demo⦄ (any is_json (codes "--json" ∷ [])) 0))
    × (usage (codes "--json" ∷ codes "-e" ∷ codes "help" ∷ []) ≡ [])
unfolding codes
main_until_loop-course_behind_example =
    main_until_loop-course_behind ⦃env = demo⦄ 5 (codes "help" ∷ []) 0 (codes "--json" ∷ []) refl
