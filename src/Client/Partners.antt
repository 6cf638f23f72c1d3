-- ===== src/Client/Partners.antt =====
-- The list of a chat room's partners, when a member leaves (Client::userHasLeftChatroom).
use networking_programming_p.Base.{
  Str, List, [], ◌∷◌, ◌++◌, none, some, true, false, ◌≡◌, refl, ◌∙◌, str_eq,
}
use networking_programming_p.Wire.{Arrival, read_msg}
use networking_programming_p.Client.{Partner, Client, with_msg_lem}
use networking_programming_p.Client.Handlers.{erase_partner, drop_user, user_has_left_chatroom}

-- No partner of the list has the name.
abbrev pub LacksPartner : Str → List Partner → Type 0
LacksPartner name [] = Unit
LacksPartner name (p ∷ ps) = (str_eq p.name name ≡ false) × LacksPartner name ps

erase_partner-append :
    (name : Str) (before : List Partner) (p : Partner) (after : List Partner)
    → LacksPartner name before
    → str_eq p.name name ≡ true
    → erase_partner name (before ++ (p ∷ after)) ≡ some (before ++ after)
unfolding erase_partner
erase_partner-append name [] p after l e = rw e
erase_partner-append name (b ∷ before) p after l e =
    rw (l.0, erase_partner-append name before p after l.1 e)

erase_partner-absent :
    (name : Str) (ps : List Partner) → LacksPartner name ps → erase_partner name ps ≡ none
unfolding erase_partner
erase_partner-absent name [] l = refl
erase_partner-absent name (p ∷ ps) l = rw (l.0, erase_partner-absent name ps l.1)

-- When the server names a member that left, other than the client itself, and a partner has that
-- name, the first such partner goes out of the list, the others stay in their order, and nothing
-- else changes but the text that was read.
pub user_has_left_chatroom-listed :
    (c : Client) (name : Str) (rest : List Arrival) (before : List Partner) (p : Partner)
    (after : List Partner)
    → read_msg c.inbox ≡ some (name, rest)
    → str_eq name c.client_name ≡ false
    → c.chatroom_partners ≡ before ++ (p ∷ after)
    → LacksPartner name before
    → str_eq p.name name ≡ true
    → user_has_left_chatroom c
      ≡ some (record c { inbox = rest; chatroom_partners = before ++ after })
unfolding user_has_left_chatroom drop_user
user_has_left_chatroom-listed c name rest before p after r n e l k =
    with_msg_lem drop_user c name rest r ∙ rw (n, e, erase_partner-append name before p after l k)

-- When the server names a member that left, other than the client itself, and no partner has that
-- name, the client erases behind the end of its list, which is undefined.
pub user_has_left_chatroom-unlisted :
    (c : Client) (name : Str) (rest : List Arrival)
    → read_msg c.inbox ≡ some (name, rest)
    → str_eq name c.client_name ≡ false
    → LacksPartner name c.chatroom_partners
    → user_has_left_chatroom c ≡ none
unfolding user_has_left_chatroom drop_user
user_has_left_chatroom-unlisted c name rest r n l =
    with_msg_lem drop_user c name rest r ∙ rw (n, erase_partner-absent name c.chatroom_partners l)
