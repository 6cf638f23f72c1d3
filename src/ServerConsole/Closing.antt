-- ===== src/ServerConsole/Closing.antt =====
-- What the console does to the server: nothing until it closes it
-- (ServerSide/src/Server.cpp, main).
use networking_programming_p.Base.{
  ◌≡◌, ◌&&◌, Option, none, some, true, false, codes, str_eq, if◌then◌else◌,
}
use networking_programming_p.Login.{Server}
use networking_programming_p.ServerConsole.{Objects, Cli, Outcome, fault, working, ended}
use networking_programming_p.ServerConsole.Closed.{closed, emptied_all, is_spoiled}

-- What the answer to a command may do: only "x" may change the server, and only it may be a fault.
unfoldable IsAnswer : Cli → Option Cli → Type 0
IsAnswer s none = (str_eq s.command (codes "x") ≡ true) × (is_spoiled s.objects ≡ true)
IsAnswer s (some t) =
    (t.command ≡ s.command)
    × (t.server ≡ (if str_eq s.command (codes "x") then closed s.server else s.server))
    × (t.objects ≡ (if str_eq s.command (codes "x") then emptied_all s.objects else s.objects))
    × ((str_eq s.command (codes "x") && is_spoiled s.objects) ≡ false)

-- At work the console has left the server and its objects as they are, at its end it has closed it,
-- with no object deleted twice, and it has a fault only if there is one that would be.
abbrev pub LeavesOrCloses : Server → Objects → Outcome → Type 0
LeavesOrCloses s o fault = is_spoiled o ≡ true
LeavesOrCloses s o (working t) = (t.server ≡ s) × (t.objects ≡ o)
LeavesOrCloses s o (ended t) =
    (t.server ≡ closed s) × (t.objects ≡ emptied_all o) × (is_spoiled o ≡ false)
