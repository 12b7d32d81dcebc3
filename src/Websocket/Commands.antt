-- ===== src/Websocket/Commands.antt =====
-- What the commands of a connection do, whatever becomes of the texts that are sent.
use fep3_base_utilities.Prelude.{ℕ, none, List, [], ◌∷◌, ◌++◌, ◌≡◌, refl, ap, ◌∙◌, false, Text}
use fep3_base_utilities.Effect.{
  Outcome, value, raised, exited, faulted, unfinished, Answer, returned, thrown, pure, modify,
  recover, try_catch, go_on, ◌>>=◌, ◌>>◌,
}
use fep3_base_utilities.Lexer.{parse_line}
use fep3_base_utilities.Env.{Env}
use fep3_base_utilities.Session.{State, Action}
use fep3_base_utilities.Interactive.{execute_message, read_messages}
use fep3_base_utilities.Interactive.Survival.{Survives, read_messages-Survives}
use fep3_base_utilities.Websocket.{
  SocketLibrary, Failure, Peer, Io, log_line, lost_note, answered_by, send, write_output_to_sink,
  write_all_to_sink, with_sink, written_since, on_message, read_loop, read_input_from_socket,
}

module _ ⦃env : Env⦄ ⦃sockets : SocketLibrary⦄ where
  open sockets use {Socket, socket_write}

  -- The outcome and the session are those of the action on the session.
  pub record Follows {A : Type 0} (m : Io A) (n : Action A) : Type 0 where
    pub outcome : (c : Peer) → (m c).0 ≡ (n c.session).0
    pub session : (c : Peer) → (m c).1.session ≡ (n c.session).1

  Follows-pure : {A : Type 0} (a : A) → Follows (pure a) (pure a)
  unfolding pure
  Follows-pure a = record { outcome = λ c. refl; session = λ c. refl }

  Follows-log_line : (line : Text) → Follows (log_line line) (pure tt)
  unfolding pure log_line modify
  Follows-log_line line = record { outcome = λ c. refl; session = λ c. refl }

  module _ {A B : Type 0} where
    go_on-Follows :
        (r : Outcome A) (m : A → Io B) (n : A → Action B) (d : Peer) (t : State)
        → d.session ≡ t
        → ((a : A) → Follows (m a) (n a))
        → ((go_on r m d).0 ≡ (go_on r n t).0) × ((go_on r m d).1.session ≡ (go_on r n t).1)
    go_on-Follows (value a) m n d t h f =
        ((f a).outcome d ∙ ap (λ u. (n a u).0) h, (f a).session d ∙ ap (λ u. (n a u).1) h)
    go_on-Follows (raised what) m n d t h f = (refl, h)
    go_on-Follows (exited k) m n d t h f = (refl, h)
    go_on-Follows faulted m n d t h f = (refl, h)
    go_on-Follows unfinished m n d t h f = (refl, h)

    Follows-bind :
        {m : Io A} {n : Action A} {m' : A → Io B} {n' : A → Action B}
        → Follows m n
        → ((a : A) → Follows (m' a) (n' a))
        → Follows (m >>= m') (n >>= n')
    unfolding ◌>>=◌
    Follows-bind {m} {n} {m'} {n'} f g =
        let step : (c : Peer)
            → ((go_on (m c).0 m' (m c).1).0 ≡ (go_on (n c.session).0 n' (n c.session).1).0)
              × ((go_on (m c).0 m' (m c).1).1.session
                  ≡ (go_on (n c.session).0 n' (n c.session).1).1) =
          λ c.
            rw (f.outcome c)
              (go_on-Follows (n c.session).0 m' n' (m c).1 (n c.session).1 (f.session c) g) in
        record { outcome = λ c. (step c).0; session = λ c. (step c).1 }

  -- What is done before does not touch the session.
  Follows-after :
      {A : Type 0} {m : Io (Unit {0})} {m' : Io A} {n : Action A}
      → Follows m (pure tt)
      → Follows m' n
      → Follows (m >> m') n
  unfolding pure ◌>>=◌
  Follows-after f g =
      let both = Follows-bind f (λ _. g) in
      record { outcome = both.outcome; session = both.session }

  caught :
      (a : Answer (Unit {0}) × Socket) (c : Peer) (handle : Text → Io (Unit {0}))
      → ((what : Text) → Follows (handle what) (pure tt))
      → ((recover (answered_by c a).0 handle (answered_by c a).1).0 ≡ value tt)
        × ((recover (answered_by c a).0 handle (answered_by c a).1).1.session ≡ c.session)
  unfolding pure
  caught (returned a, k) c handle f = (refl, refl)
  caught (thrown what, k) c handle f =
      ((f what).outcome (record c { socket = k }), (f what).session (record c { socket = k }))

  Follows-try_catch :
      (output : Text) (handle : Text → Io (Unit {0}))
      → ((what : Text) → Follows (handle what) (pure tt))
      → Follows (try_catch (send output) handle) (pure tt)
  unfolding try_catch send pure
  Follows-try_catch output handle f = record {
    outcome = λ c. (caught (socket_write output c.socket) c handle f).0;
    session = λ c. (caught (socket_write output c.socket) c handle f).1;
  }

  -- Whether the write throws or not, nothing is thrown.
  pub Follows-write_output_to_sink :
      (output : Text) → Follows (write_output_to_sink output) (pure tt)
  unfolding write_output_to_sink
  Follows-write_output_to_sink output = Follows-after (Follows-log_line _) (
      Follows-try_catch output _ (λ what.
        Follows-after (Follows-log_line _)
          (Follows-after (Follows-log_line what) (Follows-log_line _))))

  pub Follows-write_all_to_sink :
      (outputs : List Text) → Follows (write_all_to_sink outputs) (pure tt)
  unfolding write_all_to_sink
  Follows-write_all_to_sink [] = Follows-pure tt
  Follows-write_all_to_sink (output ∷ outputs) =
      Follows-after (Follows-write_output_to_sink output) (Follows-write_all_to_sink outputs)

  Follows-with_sink : {A : Type 0} (m : Action A) → Follows (with_sink m) m
  unfolding with_sink pure ◌>>=◌
  Follows-with_sink m = record { outcome = λ c. (kept c).0; session = λ c. (kept c).1 }
    where
      kept :
          (c : Peer)
          → ((with_sink m c).0 ≡ (m c.session).0) × ((with_sink m c).1.session ≡ (m c.session).1)
      kept c =
          let outputs = Follows-write_all_to_sink (written_since c.session (m c.session).1) in
          let before = record c { session = (m c.session).1 } in
          rw (outputs.outcome before) (refl, outputs.session before)

  module _ (rounds : ℕ) where
    Follows-on_message :
        (input : Text)
        → Follows (on_message rounds input) (execute_message rounds (parse_line input false))
    unfolding on_message
    Follows-on_message input = Follows-after (Follows-log_line _) (Follows-with_sink _)

    Follows-read_loop :
        (inputs : List Text) → Follows (read_loop rounds inputs) (read_messages rounds inputs)
    unfolding read_loop read_messages
    Follows-read_loop [] = Follows-pure tt
    Follows-read_loop (input ∷ inputs) =
        Follows-bind (Follows-on_message input) (λ _. Follows-read_loop inputs)

    noted :
        (r : Outcome (Unit {0})) (line : Text) (d : Peer)
        → ((go_on r (λ _. log_line line) d).0 ≡ r)
          × ((go_on r (λ _. log_line line) d).1.session ≡ d.session)
          × (r ≡ value tt → (go_on r (λ _. log_line line) d).1.console ≡ d.console ++ line ∷ [])
    unfolding log_line modify
    noted (value a) line d = (refl, refl, λ h. refl)
    noted (raised what) line d = (refl, refl, λ h. cc)
    noted (exited n) line d = (refl, refl, λ h. cc)
    noted faulted line d = (refl, refl, λ h. cc)
    noted unfinished line d = (refl, refl, λ h. cc)

    module _ (inputs : List Text) (failure : Failure) (c : Peer) where
      abbrev ended : Outcome (Unit {0}) × Peer
      ended = read_input_from_socket rounds none inputs failure c

      abbrev ended_session : Outcome (Unit {0}) × State
      ended_session = read_messages rounds inputs c.session

      -- Behind a handshake that succeeds, and whichever writes to the socket throw: the connection does to
      -- its session what the messages before the failing read do, with the same outcome, which is no
      -- exception. If that is a return, then the last line on the console is the note of the failure.
      pub read_input_from_socket-read_messages :
          (ended.0 ≡ ended_session.0)
          × (ended.1.session ≡ ended_session.1)
          × Survives ended.0
          × (ended_session.0 ≡ value tt
              → (lines : List Text) × (ended.1.console ≡ lines ++ lost_note failure ∷ []))
      unfolding read_input_from_socket ◌>>=◌
      read_input_from_socket-read_messages =
          let (r, d) = read_loop rounds inputs c in
          let follows = Follows-read_loop inputs in
          let (same, session, note) = noted r (lost_note failure) d in
          let outcome = same ∙ follows.outcome c in
          (
            outcome,
            session ∙ follows.session c,
            rw outcome (read_messages-Survives rounds inputs c.session),
            λ returns. (d.console, note (follows.outcome c ∙ returns)),
          )
