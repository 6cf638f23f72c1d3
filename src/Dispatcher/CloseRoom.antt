-- ===== src/Dispatcher/CloseRoom.antt =====
-- Dispatcher::close_chatroom (ServerSide/src/Dispatcher.cpp), which nothing calls.
use networking_programming_p.Base.{
  Str, List, [], ◌∷◌, Option, none, some, Bool, false, ◌||◌, str_eq, ◌==◌,
}
use networking_programming_p.OrderedMap.{OrderedMap, erase}
use networking_programming_p.Protocol.{chatroom_was_closed, chatroom_close_error}
use networking_programming_p.Dispatcher.State.{Pointer}
use networking_programming_p.Dispatcher.Monad.{
  M, ◌>>=◌, ◌>>◌, branch◌then◌else◌, pure, gets, modify, deref, load_user, store_user, load_room,
  user_at, write_command,
}
use networking_programming_p.Dispatcher.Caller.{current_user}

-- The inner loop: each member is told, and has its flag cleared.
unfoldable pub tell_members : List Str → M (Unit {0})
tell_members [] = pure tt
tell_members (username ∷ us) = do
  member ← user_at username
  u ← load_user member
  branch u.socket == 0 then pure tt else write_command u.socket chatroom_was_closed
  store_user member (λ v. record v { connection_status = false })
  tell_members us

-- The outer loop: `found`, and `chatroom` as the last round leaves it.
unfoldable pub close_owned :
    Str → OrderedMap Pointer → Bool → Option Pointer → M (Bool × Option Pointer)
close_owned name [] found chatroom = pure (found, chatroom)
close_owned name ((key, p) ∷ m) found chatroom = do
  room ← load_room p
  branch str_eq name room.owner then tell_members room.users else pure tt
  close_owned name m (found || str_eq name room.owner) (some p)

-- Dispatcher::close_chatroom; the room that is erased is the last one of the loop.
unfoldable pub close_chatroom : Pointer → M (Unit {0})
close_chatroom user = do
  this ← load_user user
  caller ← current_user this.socket
  me ← load_user caller
  rooms ← gets (λ w. w.chatrooms_map)
  closed ← close_owned me.name rooms false none
  branch closed.0
      then (do
        last ← deref closed.1
        room ← load_room last
        modify (λ w. record w { chatrooms_map = erase room.name w.chatrooms_map }))
      else write_command this.socket chatroom_close_error
