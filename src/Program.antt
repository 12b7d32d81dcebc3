-- ===== src/Program.antt =====
-- src/fep_control_tool/fep_control_tool.cpp: parseAndExecuteCommandline, and the choice of main
-- between the end of the program and its two loops.
use fep3_base_utilities.Prelude.{
  ℕ, Bool, true, false, ◌&&◌, ◌||◌, not, Option, none, some, List, [], ◌∷◌, Text, codes, str_eq,
  str_eq_iff, any, ◌≡◌, refl, arith, ◌++◌, if◌then◌else◌,
}
use fep3_base_utilities.Numbers.{ℤ, negsuc}
use fep3_base_utilities.Effect.{Outcome, value, pure, go_on, ◌>>=◌}
use fep3_base_utilities.Env.{Env}
use fep3_base_utilities.Session.{State, Action, new_session}
use fep3_base_utilities.Output.{newline}
use fep3_base_utilities.Dispatch.{process_commandline}

-- What the loop over the arguments leaves in the variables, and the command line to execute.
pub record Request : Type 0 where
  pub executed : Option (List Text)
  pub found_execute_command : Bool
  pub json_mode : Bool
  pub auto_discovery_of_systems : Bool
  pub websocket : Bool

-- The options that set a variable; any other argument is passed over.
abbrev set_option : Text → Request → Request
set_option arg request =
    if str_eq arg (codes "-ad") || str_eq arg (codes "--auto_discovery")
    then record request { auto_discovery_of_systems = true }
    else if str_eq arg (codes "--json")
    then record request { json_mode = true }
    else if str_eq arg (codes "--websocket")
    then record request { websocket = true }
    else request

abbrev is_execute : Text → Bool
is_execute arg = str_eq arg (codes "-e") || str_eq arg (codes "--execute")

-- The loop: the option to execute takes what is left, and ends it.
unfoldable pub parse_arguments : List Text → Request → Request
parse_arguments [] request = request
parse_arguments (arg ∷ args) request =
    let rest = parse_arguments args (set_option arg request) in
    if is_execute arg then record request { executed = some args } else rest

-- The variables as main sets them first.
abbrev pub no_request : Request
no_request = record {
  executed = none;
  found_execute_command = false;
  json_mode = false;
  auto_discovery_of_systems = false;
  websocket = false;
}

unfoldable pub request_of : List Text → Request
request_of args = parse_arguments args no_request

-- What the end of parseAndExecuteCommandline writes to the error stream, where nothing is executed.
abbrev usage_without : Option (List Text) → Request → List Text
usage_without (some command_line) request = []
usage_without none request =
    if request.json_mode || request.websocket
    then []
    else (codes "invalid commandline, use: fep_control --auto_discovery --execute <execute_command>"
        ++ newline)
      ∷ (codes "                     or:  fep_control --execute <execute_command>" ++ newline)
      ∷ (codes "                     or:  fep_control -ad -e <execute_command>" ++ newline)
      ∷ []

unfoldable pub usage : List Text → List Text
usage args = usage_without (request_of args).executed (request_of args)

-- What main does behind the options: it returns the result, or runs a loop in a JSON mode.
pub data Course : Type 0 where
  returns : ℤ → Course
  websocket_loop : Bool → Course
  command_line_loop : Bool → Course

abbrev interactive : Request → Course
interactive request =
    if request.websocket
    then websocket_loop request.json_mode
    else command_line_loop request.json_mode

unfoldable pub course_of : Request → ℤ → Course
course_of request result =
    if (request.found_execute_command || not request.json_mode) && not request.websocket
    then returns result
    else interactive request

module _ ⦃env : Env⦄ (rounds : ℕ) where
  abbrev execute : Bool → Option (List Text) → Action ℤ
  execute json_mode none = pure (negsuc 0)
  execute json_mode (some command_line) = process_commandline rounds command_line

  -- The result, and the session that a command was executed in.
  unfoldable pub parse_and_execute_commandline : List Text → env.World → Outcome ℤ × State
  parse_and_execute_commandline args world =
      execute (request_of args).json_mode (request_of args).executed
        (new_session (request_of args).json_mode world)

  -- main up to its loops: without arguments nothing is executed, and the session is one in which nothing
  -- was done. A command that throws or ends the process does not come back to main.
  unfoldable pub main_until_loop : List Text → env.World → Outcome Course × State
  main_until_loop [] world = (value (command_line_loop false), new_session false world)
  main_until_loop (arg ∷ args) world =
      let (r, s) = parse_and_execute_commandline (arg ∷ args) world in
      go_on r (λ result. pure (course_of (request_of (arg ∷ args)) result)) s

-- The arguments hold no option to execute.
abbrev pub WithoutExecute : List Text → Type 0
WithoutExecute args = any is_execute args ≡ false

abbrev pub is_json : Text → Bool
is_json arg = str_eq arg (codes "--json")

abbrev pub is_websocket : Text → Bool
is_websocket arg = str_eq arg (codes "--websocket")

module _ (arg : Text) where
  ad_is_not :
      (str_eq arg (codes "-ad") || str_eq arg (codes "--auto_discovery")) ≡ true
      → (is_json arg ≡ false) × (is_websocket arg ≡ false)
  unfolding codes
  ad_is_not h = ground (
    arith,
    str_eq_iff arg (codes "-ad"),
    str_eq_iff arg (codes "--auto_discovery"),
    str_eq_iff arg (codes "--json"),
    str_eq_iff arg (codes "--websocket"),
  )

  json_is_not : is_json arg ≡ true → is_websocket arg ≡ false
  unfolding codes
  json_is_not h =
      ground (arith, str_eq_iff arg (codes "--json"), str_eq_iff arg (codes "--websocket"))

  set_option-json :
      (request : Request) → (set_option arg request).json_mode ≡ (request.json_mode || is_json arg)
  set_option-json request = ground (arith, ad_is_not)

  set_option-websocket :
      (request : Request)
      → (set_option arg request).websocket ≡ (request.websocket || is_websocket arg)
  set_option-websocket request = ground (arith, ad_is_not, json_is_not)

  set_option-found :
      (request : Request)
      → (set_option arg request).found_execute_command ≡ request.found_execute_command
  set_option-found request = ground arith

module _ (rest : List Text) where
  parse_arguments-execute :
      (args : List Text) (request : Request)
      → WithoutExecute args
      → ((parse_arguments (args ++ codes "-e" ∷ rest) request).executed ≡ some rest)
        × ((parse_arguments (args ++ codes "-e" ∷ rest) request).found_execute_command
            ≡ request.found_execute_command)
        × ((parse_arguments (args ++ codes "-e" ∷ rest) request).json_mode
            ≡ (request.json_mode || any is_json args))
        × ((parse_arguments (args ++ codes "-e" ∷ rest) request).websocket
            ≡ (request.websocket || any is_websocket args))
  unfolding parse_arguments
  parse_arguments-execute [] request h = unfold codes in ground arith
  parse_arguments-execute (arg ∷ args) request h = ground (
    arith,
    set_option-json arg request,
    set_option-websocket arg request,
    set_option-found arg request,
    parse_arguments-execute args (set_option arg request),
  )

-- The course for the options in front of one to execute, from the result of the command.
abbrev pub course_behind : List Text → ℤ → Course
course_behind args result =
    if any is_websocket args
    then websocket_loop (any is_json args)
    else if any is_json args
    then command_line_loop true
    else returns result

course_by_modes :
    (request : Request) (json websocket : Bool) (result : ℤ)
    → request.found_execute_command ≡ false
    → request.json_mode ≡ json
    → request.websocket ≡ websocket
    → course_of request result ≡ (
        if websocket
        then websocket_loop json
        else if json
        then command_line_loop true
        else returns result)
unfolding course_of
course_by_modes request true true result f j w = rw (f, j, w) refl
course_by_modes request true false result f j w = rw (f, j, w) refl
course_by_modes request false true result f j w = rw (f, j, w) refl
course_by_modes request false false result f j w = rw (f, j, w) refl

module _ ⦃env : Env⦄ (rounds : ℕ) (command_line : List Text) (world : env.World) where
  execute-behind :
      (args : List Text)
      → WithoutExecute args
      → parse_and_execute_commandline rounds (args ++ codes "-e" ∷ command_line) world
        ≡ process_commandline rounds command_line (new_session (any is_json args) world)
  unfolding parse_and_execute_commandline request_of
  execute-behind args h =
      let (executed, _, json, _) = parse_arguments-execute command_line args no_request h in
      rw (executed, json) refl

  course_of-behind :
      (args : List Text)
      → WithoutExecute args
      → course_of (request_of (args ++ codes "-e" ∷ command_line)) ≡ course_behind args
  unfolding request_of
  course_of-behind args h =
      let (_, found, json, websocket) = parse_arguments-execute command_line args no_request h in
      λ i result.
        course_by_modes (parse_arguments (args ++ codes "-e" ∷ command_line) no_request) _ _ result
          found json websocket i

  main-behind :
      (arg : Text) (args : List Text) (r : Outcome ℤ × State) (course : ℤ → Course)
      → parse_and_execute_commandline rounds (arg ∷ args) world ≡ r
      → course_of (request_of (arg ∷ args)) ≡ course
      → main_until_loop rounds (arg ∷ args) world ≡ go_on r.0 (λ result. pure (course result)) r.1
  unfolding main_until_loop
  main-behind arg args r course ran chosen =
      λ i. go_on (ran i).0 (λ result. pure (chosen i result)) (ran i).1

  -- If options with none to execute among them are followed by `-e` and a command line, then the command
  -- line is executed in a new session, in JSON mode if `--json` is among the options. If it returns, then
  -- with `--websocket` main goes on to the websocket loop, else with `--json` to the command line, and
  -- with neither it returns the result of the command; if it throws or ends the process, then so does
  -- main, and no loop begins. No usage is shown.
  pub main_until_loop-course_behind :
      (args : List Text)
      → WithoutExecute args
      → (main_until_loop rounds (args ++ codes "-e" ∷ command_line) world
          ≡ (process_commandline rounds command_line >>= λ result. pure (course_behind args result))
              (new_session (any is_json args) world))
        × (usage (args ++ codes "-e" ∷ command_line) ≡ [])
  unfolding usage request_of ◌>>=◌
  main_until_loop-course_behind [] h = (
    main-behind (codes "-e") command_line _ _ (execute-behind [] h) (course_of-behind [] h),
    rw (parse_arguments-execute command_line [] no_request h).0 refl,
  )
  main_until_loop-course_behind (arg ∷ args) h = (
    main-behind arg (args ++ codes "-e" ∷ command_line) _ _ (execute-behind (arg ∷ args) h)
        (course_of-behind (arg ∷ args) h),
    rw (parse_arguments-execute command_line (arg ∷ args) no_request h).0 refl,
  )
