-- ===== src/ServerConsole/Closed.antt =====
-- Server::close as one step, with the objects that it deletes (ServerSide/src/Server.cpp,
-- LoginAndSignUp.cpp and Dispatcher.cpp, close).
use networking_programming_p.Base.{
  ◌≡◌, refl, sym, ap, ◌∙◌, List, [], ◌∷◌, ◌++◌, append_assoc, append-nil, arith, ◌||◌, not, Option,
  none, some, Bool, false, if◌then◌else◌, Bool-cases, inl, inr,
}
use networking_programming_p.OrderedMap.{OrderedMap}
use networking_programming_p.Protocol.{chatroom_is_closing}
use networking_programming_p.Dispatcher.State.{Pointer, User, Packet, World}
use networking_programming_p.Dispatcher.Monad.{◌>>=◌, command_packets}
use networking_programming_p.Dispatcher.Steps.{>>=_step, resent, send}
use networking_programming_p.Objects.{
  Object, null, live, freed, delete_object, delete_if_set, use_object, is_freed, is_live, emptied,
}
use networking_programming_p.Dispatcher.Loop.{tell_closing, delete_listener}
use networking_programming_p.Dispatcher.Loop
use networking_programming_p.Login.{Server, on_world}
use networking_programming_p.ServerConsole.{
  delete_login, close_rest, Objects, close_socket, Cli, close_login, close, closing_lines,
}

-- What the connected users are sent.
abbrev pub closing_packets : (Pointer → User) → OrderedMap Pointer → List Packet
closing_packets users [] = []
closing_packets users ((name, p) ∷ m) =
    command_packets (users p).socket chatroom_is_closing ++ closing_packets users m

tell_closing_lem :
    (m : OrderedMap Pointer) (w : World)
    → tell_closing m w ≡ some (tt, send (closing_packets w.users m) w)
unfolding tell_closing ◌>>=◌
tell_closing_lem [] w = resent w (sym (append-nil w.sent))
tell_closing_lem ((name, p) ∷ m) w =
    tell_closing_lem m (send (command_packets (w.users p).socket chatroom_is_closing) w)
    ∙ resent w (
        append_assoc w.sent (command_packets (w.users p).socket chatroom_is_closing)
          (closing_packets w.users m))

-- The server once it was closed.
abbrev pub closed : Server → Server
closed s = record s {
  status = false;
  dispatcher = record s.dispatcher {
    status = false;
    sent = s.dispatcher.sent ++ closing_packets s.dispatcher.users s.dispatcher.users_map;
  };
}

-- Its objects then, where none of them was missing.
abbrev pub emptied_all : Objects → Objects
emptied_all o = record {
  dispatcher = emptied o.dispatcher;
  listener = emptied o.listener;
  sockets = emptied o.sockets;
  listen_sock = freed;
}

-- Whether the server has an object that its close deletes for the second time, or no socket.
abbrev pub is_spoiled : Objects → Bool
is_spoiled o =
    is_freed o.listener
    || is_freed o.dispatcher
    || is_freed o.sockets
    || not (is_live o.listen_sock)

-- What the close of the dispatcher gives.
abbrev dispatcher_closed : Object → Server → Option (Object × Server)
dispatcher_closed o s =
    if is_freed o then none else some (emptied o, record s { dispatcher = (closed s).dispatcher })

close_dispatcher_lem :
    (listener : Object) (s : Server)
    → on_world (Loop.close listener) s ≡ dispatcher_closed listener s
unfolding on_world Loop.close ◌>>=◌ delete_listener delete_if_set delete_object
close_dispatcher_lem listener s =
    let w = record s.dispatcher { status = false } in
    ap
      (λ (o : Option (Object × World)). elim o [
        | none ↦ none
        | some (a, w) ↦ some (a, record s { dispatcher = w })
      ])
      (>>=_step (tell_closing w.users_map) (λ u. delete_listener listener)
        (tell_closing_lem w.users_map w))
    ∙ deleted listener
  where
    deleted :
        (o : Object)
        → (elim (delete_listener o (closed s).dispatcher) [
          | none ↦ none
          | some (a, w) ↦ some (a, record s { dispatcher = w })
        ])
          ≡ dispatcher_closed o s
    deleted null = refl
    deleted live = refl
    deleted freed = refl

delete_if_set_lem : (o : Object) → delete_if_set o ≡ (if is_freed o then none else some (emptied o))
unfolding delete_if_set delete_object
delete_if_set_lem null = refl
delete_if_set_lem live = refl
delete_if_set_lem freed = refl

close_socket_lem : (o : Object) → close_socket o ≡ (if not (is_live o) then none else some freed)
unfolding close_socket use_object delete_if_set delete_object
close_socket_lem null = refl
close_socket_lem live = refl
close_socket_lem freed = refl

abbrev console_closed : Cli → Cli
console_closed s = record s {
  server = closed s.server;
  objects = emptied_all s.objects;
  is_listening = false;
  printed = s.printed ++ closing_lines s.server.dispatcher;
}

delete_login_lem :
    (o : Objects) (listener : Object) (t : Server)
    → delete_login o (listener, t) ≡ (
        if is_freed o.dispatcher || is_freed o.sockets
        then none
        else some (
          record o {
            dispatcher = emptied o.dispatcher;
            listener = listener;
            sockets = emptied o.sockets;
          },
          record t { status = false },
        ))
unfolding delete_login
delete_login_lem o listener t =
    ground (arith, delete_if_set_lem o.dispatcher, delete_if_set_lem o.sockets)

close_login_lem :
    (o : Objects) (s : Server)
    → close_login o s ≡ (
        if is_freed o.listener || is_freed o.dispatcher || is_freed o.sockets
        then none
        else some (record (emptied_all o) { listen_sock = o.listen_sock }, closed s))
unfolding close_login
close_login_lem o s =
    ap (λ (r : Option (Object × Server)). elim r [ none ↦ none | some r ↦ delete_login o r ])
      (close_dispatcher_lem o.listener s)
    ∙ elim (Bool-cases (is_freed o.listener)) [
      | inl e ↦ rw e refl
      | inr e ↦ rw e (
          delete_login_lem o (emptied o.listener) (record s { dispatcher = (closed s).dispatcher }))
    ]

pub close_lem :
    (s : Cli) → close s ≡ (if is_spoiled s.objects then none else some (console_closed s))
unfolding close close_rest
close_lem s =
    ap (λ (r : Option (Objects × Server)). elim r [ none ↦ none | some r ↦ close_rest s r ])
      (close_login_lem s.objects s.server)
    ∙ ground (arith, close_socket_lem s.objects.listen_sock)
