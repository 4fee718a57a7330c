-- ===== src/Subscribe/Tests.antt =====
-- Two observers of one tag.
use g_plat.Prelude.{ℕ, ◌≡◌, ◌≢◌, none, some, [], ◌∷◌, ◌++◌, arith, ◌==◌, if◌then◌else◌, same_text}
use g_plat.Subscribe.{
  Tag, EventNode, Subscriptions, attach, detach, without, get_subscriber, attach_plc_io_server,
  detach_plc_io_server, get_plc_io_server,
}
use g_plat.Subscribe.Laws.{attach-detach, plc-last}

abbrev node_of : ℕ → EventNode
node_of c = record { subscriber = c; eventname = []; eventid = 1; eventarg = 0 }

abbrev subs : Subscriptions
subs = record { subjects = λ tag. node_of 3 ∷ node_of 4 ∷ []; plc_servers = λ tag. none }

abbrev tag : Tag
tag = 84 ∷ []

attach-detach_example :
    let s' = attach subs tag (node_of 3) in
    let s'' = detach s' tag 3 in
    (get_subscriber s' tag ≡ (
      if same_text tag tag
      then get_subscriber subs tag ++ node_of 3 ∷ []
      else get_subscriber subs tag))
    × (get_subscriber s'' tag ≡ (
        if same_text tag tag
        then without 3 (get_subscriber subs tag)
          ++ (if (node_of 3).subscriber == 3 then [] else node_of 3 ∷ [])
        else get_subscriber subs tag))
    × (get_plc_io_server s'' tag ≡ get_plc_io_server subs tag)
attach-detach_example = attach-detach subs tag tag (node_of 3) 3

four-ne-five : ◌≢◌ {A = ℕ} 4 5
four-ne-five h = omega (arith, h)

plc-last_example :
    let s' = attach_plc_io_server (attach_plc_io_server subs tag 4) tag 5 in
    (get_plc_io_server s' tag ≡ some 5)
    × (get_plc_io_server (detach_plc_io_server s' tag 4) tag ≡ some 5)
    × (get_plc_io_server (detach_plc_io_server s' tag 5) tag ≡ none)
    × (get_subscriber (detach_plc_io_server s' tag 5) tag ≡ get_subscriber subs tag)
plc-last_example = plc-last subs tag tag 4 5 4 four-ne-five
