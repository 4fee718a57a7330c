-- ===== src/Subscribe.antt =====
-- CSubscribe of gplat/CSubscribe.h: who is told of a tag. A std::map from tag names to lists is a
-- function here, with the empty list for a name that is not there.
pub mod Laws
mod Tests
use g_plat.Prelude.{
  ℕ, Bool, Option, none, some, List, [], ◌∷◌, ◌++◌, ◌==◌, if◌then◌else◌, same_text,
}

abbrev pub Tag : Type 0
Tag = List ℕ

-- `EventNode`, with the connection as a number and the cast `eventid` as it came.
pub record EventNode : Type 0 where
  pub subscriber : ℕ
  pub eventname : List ℕ
  pub eventid : ℕ
  pub eventarg : ℕ

-- `EVENTID::DEFAULT` and `EVENTID::POST_DELAY`, the two that the server knows.
abbrev pub event_default : ℕ
event_default = 1

abbrev pub event_post_delay : ℕ
event_post_delay = 2

pub record Subscriptions : Type 0 where
  pub subjects : Tag → List EventNode
  pub plc_servers : Tag → Option ℕ

abbrev pub set_tag {ℓ} : {A : Type ℓ} → (Tag → A) → Tag → A → Tag → A
set_tag f tag a k = if same_text k tag then a else f k

unfoldable pub attach : Subscriptions → Tag → EventNode → Subscriptions
attach s tag observer = record s {
  subjects = set_tag s.subjects tag (s.subjects tag ++ observer ∷ []);
}

-- The loop over the list, with `erase` at each node of the observer.
abbrev pub without : ℕ → List EventNode → List EventNode
without observer [] = []
without observer (node ∷ nodes) =
    let rest = without observer nodes in if node.subscriber == observer then rest else node ∷ rest

unfoldable pub detach : Subscriptions → Tag → ℕ → Subscriptions
detach s tag observer = record s {
  subjects = set_tag s.subjects tag (without observer (s.subjects tag));
}

abbrev pub get_subscriber : Subscriptions → Tag → List EventNode
get_subscriber s tag = s.subjects tag

unfoldable pub attach_plc_io_server : Subscriptions → Tag → ℕ → Subscriptions
attach_plc_io_server s tag observer = record s {
  plc_servers = set_tag s.plc_servers tag (some observer);
}

abbrev pub is_server : Option ℕ → ℕ → Bool
is_server none observer = Bool.false
is_server (some server) observer = server == observer

unfoldable pub detach_plc_io_server : Subscriptions → Tag → ℕ → Subscriptions
detach_plc_io_server s tag observer =
    if is_server (s.plc_servers tag) observer
    then record s { plc_servers = set_tag s.plc_servers tag none }
    else s

abbrev pub get_plc_io_server : Subscriptions → Tag → Option ℕ
get_plc_io_server s tag = s.plc_servers tag
