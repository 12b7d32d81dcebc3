-- ===== src/Tests/Libraries.antt =====
-- Libraries for the tests: a handle is its name, and the world counts the calls that change it.
use fep3_base_utilities.Prelude.{
  ℕ, suc, Bool, true, false, some, [], ◌∷◌, ◌++◌, Text, codes, str_eq,
}
use fep3_base_utilities.Numbers.{pos}
use fep3_base_utilities.States.{AggregatedState}
use fep3_base_utilities.Effect.{Answer, returned, thrown}
use fep3_base_utilities.Env.{Env, Call, FilesystemError}

-- A call that changes the world, and one that does not.
abbrev done : Call ℕ (Unit {0})
done w = (returned tt, suc w)

abbrev reads : {A : Type 0} → A → Call ℕ A
reads a w = (returned a, w)

-- What a system with no name tells of itself.
abbrev pub nameless : Text
nameless = []

abbrev pub alpha : Text
alpha = codes "alpha"

abbrev pub beta : Text
beta = codes "beta"

-- A system `down` cannot be found.
abbrev find_system : Text → Call ℕ Text
find_system name w = (if_known (str_eq name (codes "down")), w)
  where
    if_known : Bool → Answer Text
    if_known true = thrown (codes "no system down")
    if_known false = returned name

abbrev pub demo : Env
demo = record {
  World = ℕ;
  System = Text;
  Participant = Text;
  StateMachine = Text;
  Configuration = Text;
  Properties = Text;
  ParticipantInfo = Text;
  Passthrough = Text;
  Json = Text;
  discover_system_named = find_system;
  discover_every_system = reads (alpha ∷ nameless ∷ []);
  new_system = reads;
  add_participant = λ sys name. done;
  system_name = λ sys. sys;
  participants_of = λ sys. reads (codes "driver" ∷ []);
  participant_of = λ sys name. reads name;
  system_transition = λ t sys. done;
  set_state = λ sys st. done;
  state_of = λ sys. reads (AggregatedState.running, true);
  register_monitoring = λ sys. done;
  unregister_monitoring = λ sys. done;
  configure_clock_sync_only_interpolation = λ sys a b. done;
  configure_discrete_steps = λ sys a b c. done;
  configure_no_master = λ sys. done;
  timing_masters_of = λ sys. reads (codes "driver" ∷ []);
  participant_name = λ p. p;
  is_valid = λ p. true;
  init_priority_of = λ p. reads (pos 1);
  start_priority_of = λ p. reads (pos 2);
  assign_init_priority = λ p n. done;
  assign_start_priority = λ p n. done;
  state_machine_of = λ p. reads (some p);
  machine_transition = λ t m. done;
  machine_state = λ m. reads AggregatedState.loaded;
  configuration_of = λ p. reads (some p);
  properties_at = λ conf node. reads (some node);
  property_names = λ props. reads [];
  property = λ props name. reads (codes "1");
  property_type = λ props name. reads (codes "int");
  assign_property = λ props name value type w. (returned true, suc w);
  info_of = λ p. reads (some p);
  rpc_components = λ info. reads (codes "clock" ∷ []);
  rpc_component_iids = λ info object. reads (codes "clock.iid" ∷ []);
  rpc_component_definition = λ info object iid. reads (codes "{}");
  passthrough_of = λ p object. reads object;
  passthrough_call = λ pass request. reads (true, codes "{}");
  state_id = λ st. codes "0";
  severity_string = λ n. codes "Info";
  json_null = [];
  json_text = λ t. t;
  json_number = λ n. n ∷ [];
  json_put = λ v k x. v ++ k ++ x;
  json_at = λ v k. [];
  json_append = λ v x. v ++ x;
  json_compact = λ v. v;
  json_stream = λ v. v;
  json_read = returned;
  build_request = λ method params. method ++ params;
  join = λ parts between. between;
  canonical = λ path. path;
  change_directory = λ path. reads FilesystemError.fs_ok;
  current_directory = reads (codes "/");
  files_here = reads [];
  history_add = λ line w. suc w;
}
