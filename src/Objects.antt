-- ===== src/Objects.antt =====
-- Objects that `new` makes and `delete` frees, by the pointers that the source keeps to them
-- (ServerSide/src/Dispatcher.cpp, LoginAndSignUp.cpp and Server.cpp). An object that is used or
-- deleted once more after its delete is undefined behaviour, and so is one that was never made.
use networking_programming_p.Base.{Option, none, some, Bool, true, false}

-- What a pointer points to: nothing, an object, or one that was deleted, where it stood.
pub data Object : Type 0 where
  null : Object
  live : Object
  freed : Object

-- `delete(p)`
unfoldable pub delete_object : Object → Option Object
delete_object null = some null
delete_object live = some freed
delete_object freed = none

-- `if (p != NULL) delete(p)`
unfoldable pub delete_if_set : Object → Option Object
delete_if_set null = some null
delete_if_set live = delete_object live
delete_if_set freed = delete_object freed

-- A call of a method that reads the object.
unfoldable pub use_object : Object → Option Object
use_object null = none
use_object live = some live
use_object freed = none

abbrev pub is_freed : Object → Bool
is_freed null = false
is_freed live = false
is_freed freed = true

abbrev pub is_live : Object → Bool
is_live null = false
is_live live = true
is_live freed = false

-- What a pointer points to behind a delete.
abbrev pub emptied : Object → Object
emptied null = null
emptied live = freed
emptied freed = freed
