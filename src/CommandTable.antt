-- ===== src/CommandTable.antt =====
-- src/fep_control_tool/fep_control.h and getControlCommands of src/fep_control_tool/fep_control.cpp:
-- the commands with their arguments. A pointer to a member function is the member's name.
use fep3_base_utilities.Prelude.{ℕ, Bool, true, false, List, [], ◌∷◌, ◌++◌, String, Text, codes}

-- The member functions that the table takes as actions.
pub data ActionFunction : Type 0 where
  quit discover_all_systems discover_system set_current_working_directory : ActionFunction
  get_current_working_directory help load_system unload_system set_init_priority : ActionFunction
  get_init_priority set_start_priority get_start_priority initialize_system : ActionFunction
  deinitialize_system start_system stop_system pause_system shutdown_system : ActionFunction
  start_monitoring_system stop_monitoring_system load_participant unload_participant :
      ActionFunction
  initialize_participant deinitialize_participant start_participant stop_participant :
      ActionFunction
  pause_participant get_participant_property_names get_participant_properties : ActionFunction
  get_participant_property set_participant_property get_rpc_objects_participant : ActionFunction
  get_rpc_object_iids_participant get_rpc_object_definition_participant : ActionFunction
  shutdown_participant get_system_state set_system_state get_participant_state : ActionFunction
  set_participant_state get_participants call_rpc configure_system_timing_system_time :
      ActionFunction
  configure_system_timing_discrete configure_system_time_no_sync get_current_timing_master :
      ActionFunction
  enable_auto_discovery disable_auto_discovery enable_json_mode disable_json_mode : ActionFunction

-- The member functions that the table takes for the completion of an argument.
pub data ArgumentCompletionFunction : Type 0 where
  no_completion : ArgumentCompletionFunction
  command_name_completion : ArgumentCompletionFunction
  connected_systems_completion : ArgumentCompletionFunction
  connected_participants_completion : ArgumentCompletionFunction
  used_properties_completion : ArgumentCompletionFunction
  possible_systems_state_completion : ArgumentCompletionFunction

pub record ArgumentHandler : Type 0 where
  pub description : Text
  pub completion : ArgumentCompletionFunction

pub record ControlCommand : Type 0 where
  pub name : Text
  pub description : Text
  pub action : ActionFunction
  pub arguments : List ArgumentHandler
  pub last_optional_parameters : ℕ
  pub hidden : Bool

abbrev argument : String → ArgumentCompletionFunction → ArgumentHandler
argument description completion = record {
  description = codes description;
  completion = completion;
}

abbrev pub on_system : List ArgumentHandler
on_system = argument "system name" connected_systems_completion ∷ []

abbrev on_participant : List ArgumentHandler
on_participant =
    argument "system name" connected_systems_completion
    ∷ argument "participant name" connected_participants_completion
    ∷ []

abbrev command : String → String → ActionFunction → List ArgumentHandler → ℕ → Bool → ControlCommand
command name description action arguments last_optional_parameters hidden = record {
  name = codes name;
  description = codes description;
  action = action;
  arguments = arguments;
  last_optional_parameters = last_optional_parameters;
  hidden = hidden;
}

-- From `exit` to `getStartPriority`.
unfoldable pub first_commands : List ControlCommand
first_commands =
    command "exit" "quits this program" quit [] 0 false
    ∷ command "quit" "quits this program" quit [] 0 false
    ∷ command "discoverAllSystems" "discovers all systems and registers logging monitor for them"
        discover_all_systems [] 0 false
    ∷ command "discoverSystem"
        "discover one system with the given name and register the logging monitor for them"
        discover_system (argument "system name" no_completion ∷ []) 0 false
    ∷ command "setCurrentWorkingDirectory"
        "changes the current working dir of this fep_control instance" set_current_working_directory
        (argument "directory name" no_completion ∷ []) 0 false
    ∷ command "getCurrentWorkingDirectory"
        "prints the current working dir of this fep_control instance" get_current_working_directory
        [] 0 false
    ∷ command "help" "prints out the description of the commands" help
        (argument "command name" command_name_completion ∷ []) 1 false
    ∷ command "loadSystem" "loads the given system" load_system on_system 0 false
    ∷ command "unloadSystem" "unloads the given system" unload_system on_system 0 false
    ∷ command "setInitPriority" "sets init priority of a participant" set_init_priority
        (on_participant ++ argument "priority value" no_completion ∷ []) 0 false
    ∷ command "getInitPriority" "gets init priority of a participant" get_init_priority
        on_participant 0 false
    ∷ command "setStartPriority" "sets start priority of a participant" set_start_priority
        (on_participant ++ argument "priority value" no_completion ∷ []) 0 false
    ∷ command "getStartPriority" "gets start priority of a participant" get_start_priority
        on_participant 0 false
    ∷ []

-- From `initializeSystem` to `pauseParticipant`.
unfoldable pub system_commands : List ControlCommand
system_commands =
    command "initializeSystem" "initializes the given system" initialize_system on_system 0 false
    ∷ command "deinitializeSystem" "deinitializes the given system" deinitialize_system on_system 0
        false
    ∷ command "startSystem" "starts the given system" start_system on_system 0 false
    ∷ command "stopSystem" "stops the given system" stop_system on_system 0 false
    ∷ command "pauseSystem" "pauses the given system" pause_system on_system 0 false
    ∷ command "shutdownSystem" "shutdown the given system" shutdown_system on_system 0 false
    ∷ command "startMonitoringSystem" "monitor logging messages of the given system"
        start_monitoring_system on_system 0 false
    ∷ command "stopMonitoringSystem" "stop monitoring logging messages of the given system"
        stop_monitoring_system on_system 0 false
    ∷ command "loadParticipant" "loads the given participant" load_participant on_participant 0
        false
    ∷ command "unloadParticipant" "unloads the given participant" unload_participant on_participant
        0 false
    ∷ command "initializeParticipant" "initializes the given participant" initialize_participant
        on_participant 0 false
    ∷ command "deinitializeParticipant" "deinitializes the given participant"
        deinitialize_participant on_participant 0 false
    ∷ command "startParticipant" "starts the given participant" start_participant on_participant 0
        false
    ∷ command "stopParticipant" "stops the given participant" stop_participant on_participant 0
        false
    ∷ command "pauseParticipant" "pauses the given participant" pause_participant on_participant 0
        false
    ∷ []

-- From `getParticipantPropertyNames` to `getParticipants`.
unfoldable pub participant_commands : List ControlCommand
participant_commands =
    command "getParticipantPropertyNames" "display all property names of a participant"
      get_participant_property_names on_participant 0 false
    ∷ command "getParticipantProperties" "display all properties and values of a participant"
        get_participant_properties on_participant 0 false
    ∷ command "getParticipantProperty" "get value of a property of a participant"
        get_participant_property
        (on_participant ++ argument "property_name" used_properties_completion ∷ []) 0 false
    ∷ command "setParticipantProperty" "set value of a property of a participant"
        set_participant_property
        (on_participant
          ++ argument "property_name" used_properties_completion
            ∷ argument "property_value" no_completion
            ∷ [])
        0 false
    ∷ command "getParticipantRPCObjects" "retrieve the RPC Objects of the given participant"
        get_rpc_objects_participant on_participant 0 false
    ∷ command "getParticipantRPCObjectIIDs"
        "retrieve the RPC IIDs of a concrete RPC Objects of the given participant"
        get_rpc_object_iids_participant
        (on_participant ++ argument "object name" no_completion ∷ []) 0 false
    ∷ command "getParticipantRPCObjectIIDDefinition"
        "retrieve the RPC Definition of an IID of a concrete RPC Objects of the given participant"
        get_rpc_object_definition_participant
        (on_participant
          ++ argument "object name" no_completion ∷ argument "interface id" no_completion ∷ [])
        0 false
    ∷ command "shutdownParticipant" "shutdown the given participant" shutdown_participant
        on_participant 0 false
    ∷ command "getSystemState" "retrieves the given system" get_system_state on_system 0 false
    ∷ command "setSystemState" "sets the given system state" set_system_state
        (argument "system name" connected_systems_completion
          ∷ argument "system state" possible_systems_state_completion
          ∷ [])
        0 false
    ∷ command "getParticipantState" "retrieves the given participants state" get_participant_state
        on_participant 0 false
    ∷ command "setParticipantState" "sets the given participants system state" set_participant_state
        (on_participant ++ argument "particiapnt state" possible_systems_state_completion ∷ []) 0
        false
    ∷ command "getParticipants" "lists the participants of the given system" get_participants
        on_system 0 false
    ∷ []

-- From `callRPC` to `disableJson`.
unfoldable pub last_commands : List ControlCommand
last_commands =
    command "callRPC" "Transmit a RPC call and wait for it's response" call_rpc
      (on_participant
        ++ argument "service name" no_completion
          ∷ argument "service iid" no_completion
          ∷ argument "function name" no_completion
          ∷ argument "arguments" no_completion
          ∷ [])
      1 false
    ∷ command "configureTiming3SystemTime"
        "configures the given system for timing System Time (Sync only to the master)"
        configure_system_timing_system_time
        (argument "system name" connected_systems_completion
          ∷ argument "master participant name" connected_participants_completion
          ∷ [])
        0 false
    ∷ command "configureTiming3DiscreteTime"
        "configures the given system for timing Discrete Time (for AFAP use 0.0 as factor)"
        configure_system_timing_discrete
        (argument "system name" connected_systems_completion
          ∷ argument "master participant name" connected_participants_completion
          ∷ argument "factor" no_completion
          ∷ argument "step size (in ns)" no_completion
          ∷ [])
        0 false
    ∷ command "configureTiming3NoSync" "resets the timing configuration"
        configure_system_time_no_sync on_system 0 false
    ∷ command "getCurrentTimingMaster" "retrieves the timing master from the systems participants"
        get_current_timing_master on_system 0 false
    ∷ command "enableAutoDiscovery" "enable the auto discovery for commands on systems"
        enable_auto_discovery [] 0 false
    ∷ command "disableAutoDiscovery" "disable the auto discovery for commands on systems"
        disable_auto_discovery [] 0 false
    ∷ command "enableJson" "enable json mode (hidden function)" enable_json_mode [] 0 true
    ∷ command "disableJson" "disable json mode (hidden function)" disable_json_mode [] 0 true
    ∷ []

-- The whole table, in its order.
unfoldable pub control_commands : List ControlCommand
unfolding first_commands system_commands participant_commands last_commands
control_commands = first_commands ++ (system_commands ++ (participant_commands ++ last_commands))
