-- ===== src/Websocket/Delivery.antt =====
-- What a client gets of the texts that its session writes.
use fep3_base_utilities.Prelude.{
  ℕ, none, List, [], ◌∷◌, ◌++◌, ◌≡◌, refl, sym, ap, ◌∙◌, true, drop, length, All, drop-append,
  append_assoc, append-nil, false, Text, codes,
}
use fep3_base_utilities.Effect.{
  Outcome, value, raised, exited, faulted, unfinished, Answer, returned, thrown, pure, modify,
  recover, try_catch, go_on, ◌>>=◌,
}
use fep3_base_utilities.Effect.Runs.{IsFlow, Runs, Runs-bind, Runs-pure}
use fep3_base_utilities.Lexer.{parse_line}
use fep3_base_utilities.Env.{Env}
use fep3_base_utilities.Session.{State, Action}
use fep3_base_utilities.Commands.Properties.Moves.{NeverNull}
use fep3_base_utilities.Dispatch.Invariants.{Keeps, Keeps-moves, Keeps-resets, Keeps-uses}
use fep3_base_utilities.Interactive.Survival.{Runs-execute_message}
use fep3_base_utilities.Websocket.{
  SocketLibrary, Failure, Peer, Io, log_line, answered_by, send, write_output_to_sink,
  write_all_to_sink, with_sink, written_since, on_message, read_loop, read_input_from_socket,
}
use fep3_base_utilities.Session.Moves.{IsDocument}
use fep3_base_utilities.Interactive.Documents.{StaysJson, read_messages-Spoke}
use fep3_base_utilities.Websocket.Commands.{
  read_input_from_socket-read_messages, Follows-write_output_to_sink, Follows-write_all_to_sink,
}

-- A socket that is up: no write throws, and the client gets what is written.
pub record IsUp ⦃sockets : SocketLibrary⦄ (received : sockets.Socket → List Text) : Type 0 where
  pub writes : (text : Text) (k : sockets.Socket) → (sockets.socket_write text k).0 ≡ returned tt
  pub delivers :
      (text : Text) (k : sockets.Socket)
      → received (sockets.socket_write text k).1 ≡ received k ++ text ∷ []

module _ ⦃env : Env⦄ ⦃sockets : SocketLibrary⦄ {received : sockets.Socket → List Text}
    (up : IsUp received) where
  open sockets use {Socket, socket_write}

  delivered :
      (a : Answer (Unit {0}) × Socket) (c : Peer) (handle : Text → Io (Unit {0}))
      → a.0 ≡ returned tt
      → (recover (answered_by c a).0 handle (answered_by c a).1).1.socket ≡ a.1
  delivered (returned a, k) c handle h = refl
  delivered (thrown what, k) c handle h = cc

  received-write_output_to_sink :
      (output : Text) (c : Peer)
      → received (write_output_to_sink output c).1.socket ≡ received c.socket ++ output ∷ []
  unfolding write_output_to_sink send try_catch log_line modify ◌>>=◌
  received-write_output_to_sink output c =
      ap received (
        delivered (socket_write output c.socket)
          (record c { console = c.console ++ (codes "--> " ++ output) ∷ [] }) _
          (up.writes output c.socket))
      ∙ up.delivers output c.socket

  received-write_all_to_sink :
      (outputs : List Text) (c : Peer)
      → received (write_all_to_sink outputs c).1.socket ≡ received c.socket ++ outputs
  unfolding write_all_to_sink pure ◌>>=◌
  received-write_all_to_sink [] c = sym (append-nil (received c.socket))
  received-write_all_to_sink (output ∷ outputs) c =
      let next = (write_output_to_sink output c).1 in
      rw ((Follows-write_output_to_sink output).outcome c) (
        received-write_all_to_sink outputs next
        ∙ (ap (λ (o : List Text). o ++ outputs) (received-write_output_to_sink output c)
            ∙ append_assoc (received c.socket) (output ∷ []) outputs))

  -- What the session writes, the client gets, in the same order.
  Delivers : Peer → Peer → Type 0
  Delivers c d =
      (added : List Text) × (d.session.output ≡ c.session.output ++ added)
      × (received d.socket ≡ received c.socket ++ added)

  Delivers-flow : IsFlow Delivers
  unfolding Delivers
  Delivers-flow = record {
    same = λ c. ([], sym (append-nil c.session.output), sym (append-nil (received c.socket)));
    join = λ {s = c} {t = d} {u = e} (xs, p, q) (ys, p', q'). (
      xs ++ ys,
      joined c.session.output xs ys _ _ p p',
      joined (received c.socket) xs ys _ _ q q',
    );
  }
    where
      joined : (a xs ys b e : List Text) → b ≡ a ++ xs → e ≡ b ++ ys → e ≡ a ++ (xs ++ ys)
      joined a xs ys b e p q = q ∙ (ap (λ (o : List Text). o ++ ys) p ∙ append_assoc a xs ys)

  Runs-log_line : (line : Text) → Runs Delivers (log_line line)
  unfolding log_line modify Delivers
  Runs-log_line line = record {
    along = λ c. ([], sym (append-nil c.session.output), sym (append-nil (received c.socket)));
    defined = λ c. cc;
  }

  module _ {A : Type 0} (m : Action A) (keeps : Runs Keeps m) where
    go_on_after :
        (r : Outcome (Unit {0})) (q : Outcome A) (d : Peer)
        → r ≡ value tt
        → (go_on r (λ _ e. (q, e)) d ≡ (q, d))
    go_on_after (value a) q d h = refl
    go_on_after (raised what) q d h = cc
    go_on_after (exited n) q d h = cc
    go_on_after faulted q d h = cc
    go_on_after unfinished q d h = cc

    with_sink_lem :
        (c : Peer)
        → with_sink m c ≡ (
          (m c.session).0,
          (write_all_to_sink
              (written_since c.session (m c.session).1)
              (record c { session = (m c.session).1 })).1,
        )
    unfolding with_sink ◌>>=◌ pure
    with_sink_lem c = go_on_after _ _ _ (
        (Follows-write_all_to_sink (written_since c.session (m c.session).1)).outcome
          (record c { session = (m c.session).1 }))

    written_since-Keeps : (s t : State) → Keeps s t → t.output ≡ s.output ++ written_since s t
    unfolding written_since
    written_since-Keeps s t k =
        let (added, e) = k.prints in rw e (rw (drop-append s.output added) refl)

    Runs-with_sink : Runs Delivers (with_sink m)
    unfolding Delivers pure
    Runs-with_sink = record {
      along = λ c. rw (with_sink_lem c) (
          let t = (m c.session).1 in
          let outputs = written_since c.session t in
          let before = record c { session = t } in
          (
            outputs,
            ap (λ u. u.output) ((Follows-write_all_to_sink outputs).session before)
                ∙ written_since-Keeps c.session t (keeps.along c.session),
            received-write_all_to_sink outputs before,
          ));
      defined = λ c. rw (with_sink_lem c) (keeps.defined c.session);
    }

  module _ (never : NeverNull) (rounds : ℕ) where
    Runs-on_message : (input : Text) → Runs Delivers (on_message rounds input)
    unfolding on_message
    Runs-on_message input = Runs-bind Delivers-flow _ _ (Runs-log_line _) (λ _. Runs-with_sink _ (
        Runs-execute_message never rounds Keeps-moves Keeps-resets Keeps-uses
          (parse_line input false)))

    Runs-read_loop : (inputs : List Text) → Runs Delivers (read_loop rounds inputs)
    unfolding read_loop
    Runs-read_loop [] = Runs-pure Delivers-flow tt
    Runs-read_loop (input ∷ inputs) =
        Runs-bind Delivers-flow _ _ (Runs-on_message input) (λ _. Runs-read_loop inputs)

    module _ (inputs : List Text) (failure : Failure) (c : Peer) where
      abbrev ended : Peer
      ended = (read_input_from_socket rounds none inputs failure c).1

      -- If no write throws and the client gets what is written, then it gets just the texts that the
      -- session of its connection writes, in their order, whatever the messages are, if the configuration
      -- proxies hand out no null pointers.
      pub read_input_from_socket-received :
          (added : List Text) × (ended.session.output ≡ c.session.output ++ added)
          × (received ended.socket ≡ received c.socket ++ added)
      unfolding Delivers read_input_from_socket
      read_input_from_socket-received =
          (Runs-bind Delivers-flow _ _ (Runs-read_loop inputs) (λ _. Runs-log_line _)).along c

    -- If no write throws and the client gets what is written, then in the JSON mode it gets nothing but
    -- JSON documents with a line feed, whatever the messages are, as long as the first word of none is
    -- disableJson, if the configuration proxies hand out no null pointers.
    pub read_input_from_socket-IsDocument :
        (inputs : List Text) (failure : Failure) (c : Peer)
        → All (λ input. StaysJson (parse_line input false)) inputs
        → c.session.json_mode ≡ true
        → (added : List Text) × (received (ended inputs failure c).socket
            ≡ received c.socket ++ added)
          × All IsDocument added
    read_input_from_socket-IsDocument inputs failure c stays json =
        let (added, wrote, got) = read_input_from_socket-received inputs failure c in
        let (_, same, _, _) = read_input_from_socket-read_messages rounds inputs failure c in
        let spoke = read_messages-Spoke never rounds inputs c.session stays json in
        let agree : added ≡ spoke.added =
          sym (drop-append c.session.output added)
          ∙ (ap (drop (length c.session.output))
                (sym wrote ∙ (ap (λ u. u.output) same ∙ spoke.appended))
              ∙ drop-append c.session.output spoke.added) in
        (added, got, rw agree spoke.documents)
